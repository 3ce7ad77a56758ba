-- ===== src/Process/Ends.antt =====
-- What is known of an action when it ends: `P` if it returns, `E` if it exits.
use linux_veda_4sensor_tcp_c.Prelude.{ℕ}
use linux_veda_4sensor_tcp_c.Process.{History, Outcome, value, exited, Action}

module _ {A : Type 0} (P : A → History → Type 0) (E : ℕ → History → Type 0) where
  abbrev pub Ends : Outcome A × History → Type 0
  Ends (value a, h) = P a h
  Ends (exited status, h) = E status h

-- An action and then another: what the first ensures is what the second starts from.
pub bind-Ends :
    {A B : Type 0} (P : A → History → Type 0) (Q : B → History → Type 0) (E : ℕ → History → Type 0)
    (r : Outcome A × History) (f : A → Action B)
    → Ends P E r
    → ((a : A) (h : History) → P a h → Ends Q E (f a h))
    → Ends Q E (elim r.0 [ value a ↦ f a r.1 | exited status ↦ (exited status, r.1) ])
bind-Ends P Q E (value a, h) f p next = next a h p
bind-Ends P Q E (exited status, h) f e next = e

-- More can be concluded from what is known.
pub weaken-Ends :
    {A : Type 0} (P Q : A → History → Type 0) (E F : ℕ → History → Type 0) (r : Outcome A × History)
    → Ends P E r
    → ((a : A) (h : History) → P a h → Q a h)
    → ((status : ℕ) (h : History) → E status h → F status h)
    → Ends Q F r
weaken-Ends P Q E F (value a, h) p f g = f a h p
weaken-Ends P Q E F (exited status, h) e f g = g status h e

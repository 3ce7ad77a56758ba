-- ===== src/Server/BroadcastLaws.antt =====
-- Whom broadcast_msg of server/main.c reaches.
use mathlib.Core.List.{reverse, reverse-cons}
use linux_veda_4sensor_tcp_c.Prelude.{
  ◌≡◌, refl, sym, ap, ◌∙◌, ℤ, pos, negsuc, is_neg, if◌then◌else◌, List, [], ◌∷◌, ◌++◌, map,
  append_assoc,
}
use linux_veda_4sensor_tcp_c.Protocol.{Message}
use linux_veda_4sensor_tcp_c.Server.State.{World, Env}
use linux_veda_4sensor_tcp_c.Server.Clients.{client_copies, send_to, broadcast_msg}
use linux_veda_4sensor_tcp_c.Server.ClientLaws.{registered}

-- A copy that could be made is kept.
kept-registered :
    (c : ℤ) (xs ys : List ℤ)
    → xs ≡ registered ys
    → (if is_neg c then xs else c ∷ xs) ≡ registered (c ∷ ys)
kept-registered (pos k) xs ys e = ap (◌∷◌ (pos k)) e
kept-registered (negsuc k) xs ys e = e

client_copies-registered :
    (dup : ℤ → ℤ) (fds : List ℤ) → client_copies dup fds ≡ registered (map dup (registered fds))
unfolding client_copies
client_copies-registered dup [] = refl
client_copies-registered dup (negsuc n ∷ fds) = client_copies-registered dup fds
client_copies-registered dup (pos n ∷ fds) =
    kept-registered (dup (pos n)) _ (map dup (registered fds)) (client_copies-registered dup fds)

pub send_to-reverse :
    (m : Message) (cs : List ℤ) (sends : List (ℤ × Message))
    → send_to m cs sends ≡ reverse (map (λ c. (c, m)) cs) ++ sends
unfolding send_to
send_to-reverse m [] sends = refl
send_to-reverse m (c ∷ cs) sends =
    send_to-reverse m cs ((c, m) ∷ sends)
    ∙ sym (append_assoc (reverse (map (λ x. (x, m)) cs)) ((c, m) ∷ []) sends)
    ∙ ap (λ xs. xs ++ sends) (sym (reverse-cons (c, m) (map (λ x. (x, m)) cs)))

-- A broadcast sends the message once to a copy of every registered descriptor that can be copied,
-- in the order of the slots, and to nobody else.
pub broadcast_msg_lem :
    (env : Env) (m : Message) (w : World)
    → (broadcast_msg env m w).events
      ≡ reverse (map (λ c. (c, m)) (registered (map env.dup (registered w.state.client_fds))))
        ++ w.events
unfolding broadcast_msg
broadcast_msg_lem env m w =
    send_to-reverse m (client_copies env.dup w.state.client_fds) w.events
    ∙ ap (λ cs. reverse (map (λ c. (c, m)) cs) ++ w.events)
        (client_copies-registered env.dup w.state.client_fds)

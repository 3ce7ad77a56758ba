-- ===== src/Server/Locks/Invariant.antt =====
-- What is left of the rounds of the threads of server/ keeps the order of their locks.
use linux_veda_4sensor_tcp_c.Prelude.{
  ℕ, zero, suc, ◌≡◌, refl, sym, ap, subst, ◌⊎◌, inl, inr, true, some, List, [], ◌∷◌, get_elem?, put,
  arith,
}
use linux_veda_4sensor_tcp_c.Server.Locks.Programs.{
  Mutex, segment_control, melody_control, state, led, buzzer, sensor, Op, lock, unlock, join,
  countdown_cleanup,
}
use linux_veda_4sensor_tcp_c.Server.Locks.Run.{
  Thread, number_of, same, remove, held_after, Go, go, Step, own, begin, cancel, Steps, start, next,
  at_rest, Nothing,
}
use linux_veda_4sensor_tcp_c.Server.Locks.Order.{base, Ordered, Round-Ordered, cleanup-Ordered}

-- What is left of every thread's round is ordered.
abbrev pub InOrder : List Thread → Type 0
InOrder ts = (i : ℕ) (t : Thread) → get_elem? ts i ≡ some t → Ordered (base i) t.holds t.rest

put_places :
    (i j : ℕ) (t u : Thread) (ts : List Thread)
    → get_elem? (put i t ts) j ≡ some u
    → ((j ≡ i) × (u ≡ t)) ⊎ (get_elem? ts j ≡ some u)
put_places i j t u [] e = inr e
put_places zero zero t u (v ∷ ts) e = inl (refl, cc)
put_places zero (suc j) t u (v ∷ ts) e = inr e
put_places (suc i) zero t u (v ∷ ts) e = inr e
put_places (suc i) (suc j) t u (v ∷ ts) e = elim (put_places i j t u ts e) [
  | inl (p, q) ↦ inl (ap suc p, q)
  | inr p ↦ inr p
]

put-InOrder :
    (i : ℕ) (t : Thread) (ts : List Thread)
    → Ordered (base i) t.holds t.rest
    → InOrder ts
    → InOrder (put i t ts)
put-InOrder i t ts h all j u e = elim (put_places i j t u ts e) [
  | inl (p, q) ↦
      subst (λ k. Ordered (base k) u.holds u.rest) (sym p)
        (subst (λ (v : Thread). Ordered (base i) v.holds v.rest) (sym q) h)
  | inr p ↦ all j u p
]

pub same_refl : (m : Mutex) → same m m ≡ true
same_refl segment_control = refl
same_refl melody_control = refl
same_refl state = refl
same_refl led = refl
same_refl buzzer = refl
same_refl sensor = refl

pub eq_of_same : (m n : Mutex) → same m n ≡ true → number_of m ≡ number_of n
eq_of_same m n e = ground arith

pub remove_top : (m n : Mutex) (ms : List Mutex) → m ≡ n → remove m (n ∷ ms) ≡ ms
remove_top m n ms e = rw (← e) (rw (same_refl m) refl)

pub after-Ordered :
    (b : ℕ) (ms : List Mutex) (o : Op) (os : List Op)
    → Ordered b ms (o ∷ os)
    → Ordered b (held_after o ms) os
after-Ordered b ms (lock m) os (h, r) = r
after-Ordered b [] (unlock m) os h = absurd h
after-Ordered b (n ∷ ms) (unlock m) os (e, r) =
    subst (λ l. Ordered b l os) (sym (remove_top m n ms e)) r
after-Ordered b ms (join w) os (h, l, r) = r

pub Go-InOrder : {ts us : List Thread} → Go ts us → InOrder ts → InOrder us
Go-InOrder (go i ms o os {ts} e able) all =
    put-InOrder i (record { holds = held_after o ms; rest = os }) ts
      (after-Ordered (base i) ms o os (all i _ e)) all

Step-InOrder : {ts us : List Thread} → Step Nothing ts us → InOrder ts → InOrder us
Step-InOrder (own g) all = Go-InOrder g all
Step-InOrder (begin i ms os {ts} e round) all =
    let empty : ms ≡ [] = all i (record { holds = ms; rest = [] }) e in
    put-InOrder i (record { holds = ms; rest = os }) ts
      (subst (λ l. Ordered (base i) l os) (sym empty) (Round-Ordered i os round)) all
Step-InOrder (cancel ms os owned {ts} e empty) all =
    put-InOrder 1 _ ts
      (subst (λ l. Ordered 2 l (countdown_cleanup owned)) (sym empty) (cleanup-Ordered owned)) all

at_rest_idle :
    (n i : ℕ) (t : Thread) → get_elem? (at_rest n) i ≡ some t → (t.holds ≡ []) × (t.rest ≡ [])
at_rest_idle zero i t e = cc
at_rest_idle (suc n) zero t e =
    let there : record { holds = []; rest = [] } ≡ t = cc in
    (sym (ap (λ (v : Thread). v.holds) there), sym (ap (λ (v : Thread). v.rest) there))
at_rest_idle (suc n) (suc i) t e = at_rest_idle n i t e

pub at_rest-InOrder : (n : ℕ) → InOrder (at_rest n)
at_rest-InOrder n i t e =
    let (h, r) = at_rest_idle n i t e in subst (λ os. Ordered (base i) t.holds os) (sym r) h

pub Steps-InOrder : {ts us : List Thread} → Steps Nothing ts us → InOrder ts → InOrder us
Steps-InOrder start all = all
Steps-InOrder (next xs x) all = Step-InOrder x (Steps-InOrder xs all)

-- ===== src/Server/Locks/Lost.antt =====
-- The countdown thread of server/handler.c, cancelled in the `pthread_join` of `stop_melody_thread`.
use linux_veda_4sensor_tcp_c.Prelude.{
  ℕ, zero, suc, ◌≡◌, refl, ◌∙◌, sym, ap, subst, ◌⊎◌, inl, inr, Bool, true, false, ◌||◌, not, some,
  List, [], ◌∷◌, ◌++◌, get_elem?, put, get_elem?-put,
}
use linux_veda_4sensor_tcp_c.Server.Locks.Programs.{
  Mutex, melody_control, Op, lock, unlock, join, countdown_cleanup,
}
use linux_veda_4sensor_tcp_c.Server.Locks.Run.{
  Thread, same, has, locked, enabled, held_after, go, Step, own, begin, cancel, Steps, start, next,
  AnyPoint,
}
use linux_veda_4sensor_tcp_c.Server.Locks.Order.{base, Ordered, Round-Ordered, cleanup-Ordered}
use linux_veda_4sensor_tcp_c.Server.Locks.Invariant.{after-Ordered, remove_top, same_refl}

-- The countdown's place holds the control lock of the melody below all that its rounds take, and
-- what is left of its round does not release it.
abbrev Lost : List Thread → Type 0
Lost ts =
    (ms : List Mutex) × (os : List Op) × (get_elem? ts 1
      ≡ some (record { holds = ms ++ (melody_control ∷ []); rest = os }))
    × Ordered 2 ms os

-- What a step does to another place does not matter.
other_place :
    (i : ℕ) (t : Thread) (ts : List Thread) → (i ≡ 1) ⊎ (get_elem? (put i t ts) 1 ≡ get_elem? ts 1)
other_place i t [] = inr refl
other_place zero t (u ∷ ts) = inr refl
other_place (suc zero) t (u ∷ ts) = inl refl
other_place (suc (suc i)) t (u ∷ []) = inr refl
other_place (suc (suc i)) t (u ∷ v ∷ ts) = inr refl

put_at_one :
    (i : ℕ) (ps ls : List Mutex) (qs : List Op) (u : Thread) (ts : List Thread)
    → i ≡ 1
    → get_elem? ts i ≡ some u
    → ps ≡ ls
    → get_elem? (put i (record { holds = ps; rest = qs }) ts) 1
      ≡ some (record { holds = ls; rest = qs })
put_at_one i ps ls qs u ts one e p =
    subst
      (λ j.
        get_elem? (put i (record { holds = ps; rest = qs }) ts) j
        ≡ some (record { holds = ls; rest = qs }))
      one
      (get_elem?-put i (record { holds = ps; rest = qs }) u ts e
        ∙ ap (λ k. some (record { holds = k; rest = qs })) p)

-- A step of place `i` leaves the lock lost, if it does so when it is the countdown's.
place_keeps :
    (i : ℕ) (ns ps : List Mutex) (os qs : List Op) (ts : List Thread)
    → get_elem? ts i ≡ some (record { holds = ns; rest = os })
    → (i ≡ 1
        → (ms : List Mutex) → ns ≡ ms ++ (melody_control ∷ [])
        → Ordered 2 ms os
        → (ls : List Mutex) × (ps ≡ ls ++ (melody_control ∷ [])) × Ordered 2 ls qs)
    → Lost ts
    → Lost (put i (record { holds = ps; rest = qs }) ts)
place_keeps i ns ps os qs ts e mine (ms, rs, there, h) =
    elim (other_place i (record { holds = ps; rest = qs }) ts) [
      | inl one ↦
          let e₁ = subst (λ j. get_elem? ts j ≡ some (record { holds = ns; rest = os })) one e in
          let one_thread : record { holds = ns; rest = os }
              ≡ record { holds = ms ++ (melody_control ∷ []); rest = rs } =
            cc in
          let holds = ap (λ (t : Thread). t.holds) one_thread in
          let rest = ap (λ (t : Thread). t.rest) one_thread in
          let (ls, p, h') = mine one ms holds (subst (λ l. Ordered 2 ms l) (sym rest) h) in
          (ls, qs, put_at_one i ps (ls ++ (melody_control ∷ [])) qs _ ts one e p, h')
      | inr same ↦ (ms, rs, same ∙ there, h)
    ]

held-append :
    (o : Op) (os : List Op) (ms ns : List Mutex)
    → Ordered 2 ms (o ∷ os)
    → held_after o (ms ++ ns) ≡ held_after o ms ++ ns
held-append (lock m) os ms ns h = refl
held-append (unlock m) os [] ns h = absurd h
held-append (unlock m) os (l ∷ ms) ns (e, h) =
    remove_top m l (ms ++ ns) e ∙ ap (λ k. k ++ ns) (sym (remove_top m l ms e))
held-append (join w) os ms ns h = refl

-- The lock cannot be released from below.
lone_lock : (ms : List Mutex) → melody_control ∷ [] ≡ ms ++ (melody_control ∷ []) → ms ≡ []
lone_lock [] e = refl
lone_lock (m ∷ []) e = cc
lone_lock (m ∷ l ∷ ms) e = cc

not_empty : (ms : List Mutex) → ¬ ([] ≡ ms ++ (melody_control ∷ []))
not_empty [] e = cc
not_empty (m ∷ ms) e = cc

Step-Lost : {ts us : List Thread} → Step AnyPoint ts us → Lost ts → Lost us
Step-Lost (own (go i ns o os {ts} e able)) lost =
    place_keeps i ns (held_after o ns) (o ∷ os) os ts e
      (λ one ms p h. (
        held_after o ms,
        ap (held_after o) p ∙ held-append o os ms (melody_control ∷ []) h,
        after-Ordered 2 ms o os h,
      ))
      lost
Step-Lost (begin i ns os {ts} e round) lost =
    place_keeps i ns ns [] os ts e
      (λ one ms p h. (
        ms,
        p,
        subst (λ l. Ordered 2 l os) (sym h)
            (subst (λ j. Ordered (base j) [] os) one (Round-Ordered i os round)),
      ))
      lost
Step-Lost (cancel ns os owned {ts} e cut) lost =
    place_keeps 1 ns ns os (countdown_cleanup owned) ts e
      (λ one ms p h. elim cut [
        | inl empty ↦ absurd (not_empty ms (sym empty ∙ p))
        | inr joining ↦ ([], joining, cleanup-Ordered owned)
      ])
      lost

Steps-Lost : {ts us : List Thread} → Steps AnyPoint ts us → Lost ts → Lost us
Steps-Lost start lost = lost
Steps-Lost (next xs x) lost = Step-Lost x (Steps-Lost xs lost)

or_right : (a b : Bool) → b ≡ true → (a || b) ≡ true
or_right true b e = refl
or_right false b e = e

has-append : (m : Mutex) (ms : List Mutex) → has m (ms ++ (m ∷ [])) ≡ true
has-append m [] = rw (same_refl m) refl
has-append m (n ∷ ms) = or_right (same m n) _ (has-append m ms)

locked_at :
    (m : Mutex) (i : ℕ) (t : Thread) (ts : List Thread)
    → get_elem? ts i ≡ some t
    → has m t.holds ≡ true
    → locked m ts ≡ true
locked_at m i t [] e h = cc
locked_at m zero t (u ∷ ts) e h =
    let same_thread : u ≡ t = cc in
    let there : has m u.holds ≡ true =
      subst (λ (v : Thread). has m v.holds ≡ true) (sym same_thread) h in
    rw there refl
locked_at m (suc i) t (u ∷ ts) e h = or_right (has m u.holds) _ (locked_at m i t ts e h)

-- When the countdown thread has been cancelled where it holds the control lock of the melody, that
-- is, in the `pthread_join` of `stop_melody_thread`, then after any further steps of the server
-- every thread that comes to lock it waits.
pub control_lock_lost :
    (os : List Op) (owned : Bool) (ts us : List Thread)
    → get_elem? ts 1 ≡ some (record { holds = melody_control ∷ []; rest = os })
    → Steps AnyPoint
        (put 1 (record { holds = melody_control ∷ []; rest = countdown_cleanup owned }) ts)
        us
    → enabled us (lock melody_control) ≡ false
control_lock_lost os owned ts us e steps =
    let cut : Lost
        (put 1 (record { holds = melody_control ∷ []; rest = countdown_cleanup owned }) ts) =
      ([], countdown_cleanup owned, get_elem?-put 1 _ _ ts e, cleanup-Ordered owned) in
    let (ms, rs, there, h) = Steps-Lost steps cut in
    ap not (locked_at melody_control 1 _ us there (has-append melody_control ms))

-- ===== src/Server/Locks/Finish.antt =====
-- The rounds of the threads of server/ end, whatever order their steps come in.
use linux_veda_4sensor_tcp_c.Prelude.{
  All, ℕ, zero, suc, ◌+◌, ◌≡◌, refl, ◌∙◌, sym, ap, some, List, [], ◌∷◌, length, get_elem?, put,
  arith,
}
use linux_veda_4sensor_tcp_c.Server.Locks.Programs.{Mutex, Op}
use linux_veda_4sensor_tcp_c.Server.Locks.Run.{
  Thread, Go, go, Goes, stay, more, Steps, remaining, at_rest, Nothing, held_after,
}
use linux_veda_4sensor_tcp_c.Server.Locks.Order.{Ordered, base}
use linux_veda_4sensor_tcp_c.Server.Locks.Invariant.{
  InOrder, Go-InOrder, Steps-InOrder, at_rest-InOrder,
}
use linux_veda_4sensor_tcp_c.Server.Locks.Progress.{progress}

remaining-put :
    (i : ℕ) (ms ns : List Mutex) (o : Op) (os : List Op) (ts : List Thread)
    → get_elem? ts i ≡ some (record { holds = ms; rest = o ∷ os })
    → suc (remaining (put i (record { holds = ns; rest = os }) ts)) ≡ remaining ts
remaining-put i ms ns o os [] e = cc
remaining-put zero ms ns o os (t ∷ ts) e =
    let same : t ≡ record { holds = ms; rest = o ∷ os } = cc in
    let len : length t.rest ≡ suc (length os) = ap (λ (v : Thread). length v.rest) same in
    omega arith
remaining-put (suc i) ms ns o os (t ∷ ts) e =
    let rec = remaining-put i ms ns o os ts e in omega arith

Go-remaining : {ts us : List Thread} → Go ts us → suc (remaining us) ≡ remaining ts
Go-remaining (go i ms o os {ts} e able) = remaining-put i ms (held_after o ms) o os ts e

Goes-remaining : {n : ℕ} {ts us : List Thread} → Goes n ts us → n + remaining us ≡ remaining ts
Goes-remaining stay = omega arith
Goes-remaining (more g gs) = let one = Go-remaining g in let rest = Goes-remaining gs in omega arith

-- A thread with something left, if there is any.
abbrev Busy : List Thread → Type 0
Busy ts =
    (i : ℕ) × (ms : List Mutex) × (o : Op) × (os : List Op) × (get_elem? ts i
      ≡ some (record { holds = ms; rest = o ∷ os }))

first_busy : (t : Thread) (ts : List Thread) → ¬ (t.rest ≡ []) → Busy (t ∷ ts)
first_busy t ts h = go_on t.rest refl h
  where
    go_on : (os : List Op) → t.rest ≡ os → ¬ (os ≡ []) → Busy (t ∷ ts)
    go_on [] p q = absurd (q refl)
    go_on (o ∷ os) p q =
        (0, t.holds, o, os, ap (λ l. some (record { holds = t.holds; rest = l })) p)

busy : (n : ℕ) (ts : List Thread) → remaining ts ≡ suc n → Busy ts
busy n [] e = absurd (omega arith)
busy n (t ∷ ts) e = go_on t.rest refl (busy n ts)
  where
    go_on : (os : List Op) → t.rest ≡ os → (remaining ts ≡ suc n → Busy ts) → Busy (t ∷ ts)
    go_on [] p rec =
        let len : length t.rest ≡ 0 = ap length p in
        let (i, ms, o, os, r) = rec (omega arith) in (suc i, ms, o, os, r)
    go_on (o ∷ os) p rec = first_busy t ts (λ q. let wrong : o ∷ os ≡ [] = sym p ∙ q in cc)

-- A thread with nothing left holds nothing.
none_left :
    (ts : List Thread) (i : ℕ) (t : Thread)
    → remaining ts ≡ 0
    → get_elem? ts i ≡ some t
    → length t.rest ≡ 0
none_left [] i t e p = cc
none_left (u ∷ ts) zero t e p =
    let len : length u.rest ≡ length t.rest =
      ap (λ (v : Thread). length v.rest) (let q : u ≡ t = cc in q) in
    omega arith
none_left (u ∷ ts) (suc i) t e p = none_left ts i t (omega arith) p

done_of :
    (b : ℕ) (ms : List Mutex) (os : List Op)
    → length os ≡ 0
    → Ordered b ms os
    → (os ≡ []) × (ms ≡ [])
done_of b ms [] e h = (refl, h)
done_of b ms (o ∷ os) e h = absurd (omega arith)

collect :
    {P : Thread → Type 0} (ts : List Thread)
    → ((i : ℕ) (t : Thread) → get_elem? ts i ≡ some t → P t)
    → All P ts
collect [] h = tt
collect (t ∷ ts) h = (h 0 t refl, collect ts (λ i u p. h (suc i) u p))

-- A thread that has ended its round and holds nothing.
abbrev pub Done : Thread → Type 0
Done t = (t.rest ≡ []) × (t.holds ≡ [])

All-Done : (ts : List Thread) → InOrder ts → remaining ts ≡ 0 → All Done ts
All-Done ts all e =
    collect ts (λ i t p. done_of (base i) t.holds t.rest (none_left ts i t e p) (all i t p))

finish_in :
    (n : ℕ) (ts : List Thread)
    → InOrder ts
    → remaining ts ≡ n
    → (us : List Thread) × Goes n ts us × All Done us
finish_in zero ts all e = (ts, stay, All-Done ts all e)
finish_in (suc n) ts all e =
    let (i, ms, o, os, p) = busy n ts e in
    let (us, g) = progress i ms o os ts all p in
    let one = Go-remaining g in
    let (vs, gs, r) = finish_in n us (Go-InOrder g all) (omega arith) in (vs, more g gs, r)

Goes-InOrder : {n : ℕ} {ts us : List Thread} → Goes n ts us → InOrder ts → InOrder us
Goes-InOrder stay all = all
Goes-InOrder (more g gs) all = Goes-InOrder gs (Go-InOrder g all)

-- After any steps of the server in which the countdown thread is cancelled, if at all, where it holds
-- no lock, let `k` steps of rounds follow, in any order, and no round begin. Each of them leaves one
-- thing less to do, and the threads can do what is left in as many steps, and then every thread has
-- ended its round and holds no lock.
pub rounds_end :
    (n k : ℕ) (ts us : List Thread)
    → Steps Nothing (at_rest n) ts
    → Goes k ts us
    → (k + remaining us ≡ remaining ts)
      × (vs : List Thread) × Goes (remaining us) us vs
      × All Done vs
rounds_end n k ts us steps gs =
    let all = Goes-InOrder gs (Steps-InOrder steps (at_rest-InOrder n)) in
    let (vs, hs, r) = finish_in (remaining us) us all refl in (Goes-remaining gs, vs, hs, r)

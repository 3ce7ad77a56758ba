-- ===== src/Server/Locks/Progress.antt =====
-- The threads of server/ keep the order of their locks, so that one of them can always go on.
use linux_veda_4sensor_tcp_c.Prelude.{
  ℕ, zero, suc, ◌+◌, ◌≤◌, ◌<◌, ◌≡◌, refl, ◌⊎◌, inl, inr, Bool, true, false, ◌||◌, Bool-cases, some,
  List, [], ◌∷◌, get_elem?, All, arith,
}
use linux_veda_4sensor_tcp_c.Server.Locks.Programs.{
  Mutex, segment_control, melody_control, state, led, buzzer, sensor, Worker, melody_tid,
  segment_tid, Op, lock, unlock, join,
}
use linux_veda_4sensor_tcp_c.Server.Locks.Run.{
  Thread, number_of, same, has, locked, thread_of, no_op, ended, enabled, Go, go, Steps, at_rest,
  Nothing,
}
use linux_veda_4sensor_tcp_c.Server.Locks.Order.{rank, base, Behind, Ordered}
use linux_veda_4sensor_tcp_c.Server.Locks.Invariant.{
  InOrder, at_rest-InOrder, Steps-InOrder, eq_of_same,
}

or_cases : (a b : Bool) → (a || b) ≡ true → (a ≡ true) ⊎ (b ≡ true)
or_cases true b e = inl refl
or_cases false b e = inr e

-- The thread that holds a locked mutex.
holder :
    (m : Mutex) (ts : List Thread)
    → locked m ts ≡ true
    → (i : ℕ) × (t : Thread) × (get_elem? ts i ≡ some t) × (has m t.holds ≡ true)
holder m [] e = cc
holder m (t ∷ ts) e = elim (or_cases (has m t.holds) (locked m ts) e) [
  | inl h ↦ (0, t, refl, h)
  | inr h ↦ let (i, u, p, q) = holder m ts h in (suc i, u, p, q)
]

has-Behind :
    (m : Mutex) (ms : List Mutex) (r : ℕ)
    → has m ms ≡ true
    → All (λ n. number_of n < r) ms
    → number_of m < r
has-Behind m [] r e h = cc
has-Behind m (n ∷ ns) r e (h, hs) = elim (or_cases (same m n) (has m ns) e) [
  | inl s ↦ let s' = eq_of_same m n s in omega arith
  | inr s ↦ has-Behind m ns r s hs
]

-- The thread that a join waits for.
joined :
    (i : ℕ) (ts : List Thread)
    → ended i ts ≡ false
    → (t : Thread) × (get_elem? ts i ≡ some t) × (no_op t.rest ≡ false)
joined i [] e = cc
joined zero (t ∷ ts) e = (t, refl, e)
joined (suc i) (t ∷ ts) e = joined i ts e

-- A thread that waits, waits behind its base and what it holds.
waits :
    (b : ℕ) (ms : List Mutex) (o : Op) (os : List Op) (ts : List Thread)
    → Ordered b ms (o ∷ os)
    → (enabled ts o ≡ true) ⊎ Behind b ms (rank o)
waits b ms (lock m) os ts (h, r) = inr h
waits b ms (unlock m) os ts h = inl refl
waits b ms (join w) os ts (h, l, r) = inr h

rank-lt : (o : Op) → rank o < 8
rank-lt (lock segment_control) = omega arith
rank-lt (lock melody_control) = omega arith
rank-lt (lock state) = omega arith
rank-lt (lock led) = omega arith
rank-lt (lock buzzer) = omega arith
rank-lt (lock sensor) = omega arith
rank-lt (unlock m) = omega arith
rank-lt (join segment_tid) = omega arith
rank-lt (join melody_tid) = omega arith

-- A thread in a round that, if it waits, waits for something above `r`.
abbrev Above : ℕ → List Thread → Type 0
Above r ts =
    (i : ℕ) × (ms : List Mutex) × (o : Op) × (os : List Op) × (get_elem? ts i
      ≡ some (record { holds = ms; rest = o ∷ os }))
    × (Behind (base i) ms (rank o) → r < rank o)

holder-Above :
    (m : Mutex) (ts : List Thread) → InOrder ts → locked m ts ≡ true → Above (number_of m) ts
holder-Above m ts all e = let (i, t, p, q) = holder m ts e in go_on i t.holds t.rest p q (all i t p)
  where
    go_on :
        (i : ℕ) (ms : List Mutex) (os : List Op)
        → get_elem? ts i ≡ some (record { holds = ms; rest = os })
        → has m ms ≡ true
        → Ordered (base i) ms os
        → Above (number_of m) ts
    go_on i ms [] p q h = let q' : false ≡ true = rw h at q in cc
    go_on i ms (o ∷ os) p q h = (i, ms, o, os, p, λ (b, held). has-Behind m ms (rank o) q held)

joined-Above :
    (w : Worker) (ts : List Thread)
    → rank (join w) < base (thread_of w)
    → ended (thread_of w) ts ≡ false
    → Above (rank (join w)) ts
joined-Above w ts l e = let (t, p, q) = joined (thread_of w) ts e in go_on t.holds t.rest p q
  where
    go_on :
        (ms : List Mutex) (os : List Op)
        → get_elem? ts (thread_of w) ≡ some (record { holds = ms; rest = os })
        → no_op os ≡ false
        → Above (rank (join w)) ts
    go_on ms [] p q = cc
    go_on ms (o ∷ os) p q = (thread_of w, ms, o, os, p, λ (b, held). omega arith)

-- What a thread waits for is had by a thread that, if it waits too, waits for something above that.
had-Above :
    (b : ℕ) (ms : List Mutex) (o : Op) (os : List Op) (ts : List Thread)
    → InOrder ts
    → Ordered b ms (o ∷ os)
    → enabled ts o ≡ false
    → Above (rank o) ts
had-Above b ms (lock m) os ts all h e = holder-Above m ts all (ground arith)
had-Above b ms (unlock m) os ts all h e = cc
had-Above b ms (join w) os ts all (h, l, r) e = joined-Above w ts l e

-- All ranks are below 8, so that such a chain of waits ends at a thread that can go on.
progress_by :
    (fuel r i : ℕ) (ms : List Mutex) (o : Op) (os : List Op) (ts : List Thread)
    → InOrder ts
    → get_elem? ts i ≡ some (record { holds = ms; rest = o ∷ os })
    → (Behind (base i) ms (rank o) → r ≤ rank o)
    → 8 ≤ r + fuel
    → (us : List Thread) × Go ts us
progress_by zero r i ms o os ts all e above h = elim (waits (base i) ms o os ts (all i _ e)) [
  | inl able ↦ (_, go i ms o os e able)
  | inr behind ↦ let low = rank-lt o in let high = above behind in absurd (omega arith)
]
progress_by (suc fuel) r i ms o os ts all e above h = elim (waits (base i) ms o os ts (all i _ e)) [
  | inl able ↦ (_, go i ms o os e able)
  | inr behind ↦ elim (Bool-cases (enabled ts o)) [
    | inl able ↦ (_, go i ms o os e able)
    | inr stuck ↦
        let (j, ns, p, ps, e', above') = had-Above (base i) ms o os ts all (all i _ e) stuck in
        let high = above behind in
        progress_by fuel (suc (rank o)) j ns p ps ts all e' above' (omega arith)
  ]
]

pub progress :
    (i : ℕ) (ms : List Mutex) (o : Op) (os : List Op) (ts : List Thread)
    → InOrder ts
    → get_elem? ts i ≡ some (record { holds = ms; rest = o ∷ os })
    → (us : List Thread) × Go ts us
progress i ms o os ts all e =
    progress_by 8 0 i ms o os ts all e (λ behind. omega arith) (omega arith)

-- After any steps of the server in which the countdown thread is cancelled, if at all, where it holds
-- no lock: whenever some thread is in the middle of a round, some thread can do the next thing of its
-- round.
pub no_deadlock :
    (n i : ℕ) (t : Thread) (ts : List Thread)
    → Steps Nothing (at_rest n) ts
    → get_elem? ts i ≡ some t
    → ¬ (t.rest ≡ [])
    → (us : List Thread) × Go ts us
no_deadlock n i t ts steps e busy = go_on t.rest e busy
  where
    go_on :
        (os : List Op)
        → get_elem? ts i ≡ some (record { holds = t.holds; rest = os })
        → ¬ (os ≡ [])
        → (us : List Thread) × Go ts us
    go_on [] p q = absurd (q refl)
    go_on (o ∷ os) p q = progress i t.holds o os ts (Steps-InOrder steps (at_rest-InOrder n)) p

-- ===== src/Server/MelodyLock.antt =====
-- g_melody_control_lock of server/handler.c: the countdown thread takes it in stop_melody_thread, and
-- waits there in `pthread_join`, which is a cancellation point.
use linux_veda_4sensor_tcp_c.Prelude.{ℕ, ◌≡◌, refl, Option, none, some, Bool, true, false}

-- Who holds the lock: the countdown thread, or the thread of a client in a call of
-- `stop_melody_thread` or `start_melody_thread`.
pub data Holder : Type 0 where
  countdown : Holder
  client : (number : ℕ) → Holder

-- Where the countdown thread is: before its call of `stop_melody_thread`, in the `pthread_join` of
-- it, behind it, or ended.
pub data Place : Type 0 where
  before joining behind ended : Place

pub record Locking : Type 0 where
  pub holder : Option Holder
  pub place : Place
  pub cancelled : Bool

-- The steps: the countdown thread takes the lock, or joins the melody thread and releases it; a
-- client that stops the countdown asks for the cancellation of its thread, which has its effect in
-- `pthread_join`, where `seg_cleanup` runs and nothing unlocks; a client takes and releases the lock.
pub data Step : Locking → Locking → Type 0 where
  take :
      {c : Bool}
      → Step
          (record { holder = none; place = before; cancelled = c })
          (record { holder = some countdown; place = joining; cancelled = c })
  joined :
      {c : Bool}
      → Step
          (record { holder = some countdown; place = joining; cancelled = c })
          (record { holder = none; place = behind; cancelled = c })
  cancel :
      {h : Option Holder} {p : Place} {c : Bool}
      → Step
          (record { holder = h; place = p; cancelled = c })
          (record { holder = h; place = p; cancelled = true })
  die :
      {h : Option Holder}
      → Step
          (record { holder = h; place = joining; cancelled = true })
          (record { holder = h; place = ended; cancelled = true })
  client_takes :
      {p : Place} {c : Bool} (number : ℕ)
      → Step
          (record { holder = none; place = p; cancelled = c })
          (record { holder = some (client number); place = p; cancelled = c })
  client_releases :
      {p : Place} {c : Bool} (number : ℕ)
      → Step
          (record { holder = some (client number); place = p; cancelled = c })
          (record { holder = none; place = p; cancelled = c })

pub data Steps : Locking → Locking → Type 0 where
  stay : {s : Locking} → Steps s s
  more : {s t u : Locking} → Step s t → Steps t u → Steps s u

-- A countdown has been started, and nobody holds the lock.
abbrev pub unlocked : Locking
unlocked = record { holder = none; place = before; cancelled = false }

-- The lock is held by a thread that has ended.
abbrev pub lost : Locking
lost = record { holder = some countdown; place = ended; cancelled = true }

step_keeps_lost :
    (s t : Locking)
    → Step s t
    → s.holder ≡ some countdown
    → s.place ≡ ended
    → (t.holder ≡ some countdown) × (t.place ≡ ended)
step_keeps_lost s t take h p = cc
step_keeps_lost s t joined h p = cc
step_keeps_lost s t cancel h p = (h, p)
step_keeps_lost s t die h p = cc
step_keeps_lost s t (client_takes n) h p = cc
step_keeps_lost s t (client_releases n) h p = cc

run_keeps_lost :
    (s t : Locking)
    → Steps s t
    → s.holder ≡ some countdown
    → s.place ≡ ended
    → (t.holder ≡ some countdown) × (t.place ≡ ended)
run_keeps_lost s t stay h p = (h, p)
run_keeps_lost s u (more {t = t} x xs) h p =
    let (h', p') = step_keeps_lost s t x h p in run_keeps_lost t u xs h' p'

-- A client that stops a countdown while its thread waits for the melody thread can leave the
-- control lock of the melody held by a thread that has ended, and from then on, whatever steps
-- follow, it stays so: nobody else gets the lock, to start or to stop a melody.
pub melody_lock_lost :
    (t : Locking)
    → Steps lost t
    → Steps unlocked lost × (t.holder ≡ some countdown) × (t.place ≡ ended)
melody_lock_lost t xs =
    let (h, p) = run_keeps_lost lost t xs refl refl in
    (more take (more cancel (more die stay)), h, p)

-- ===== src/Server/Locks/Run.antt =====
-- The threads of server/ as what they hold and what is left of their rounds, and their steps.
use linux_veda_4sensor_tcp_c.Prelude.{
  ℕ, zero, suc, ◌+◌, ◌≤◌, ◌≡◌, ◌⊎◌, ◌==◌, if◌then◌else◌, Bool, true, false, not, ◌||◌, some, List,
  [], ◌∷◌, length, get_elem?, put,
}
use linux_veda_4sensor_tcp_c.Protocol.{Message}
use linux_veda_4sensor_tcp_c.Server.Locks.Programs.{
  Mutex, segment_control, melody_control, state, led, buzzer, sensor, Worker, melody_tid,
  segment_tid, Op, lock, unlock, join, Found, brief, request, watch, countdown, countdown_cleanup,
  accepted,
}

pub record Thread : Type 0 where
  pub holds : List Mutex
  pub rest : List Op

abbrev pub number_of : Mutex → ℕ
number_of segment_control = 0
number_of melody_control = 2
number_of state = 4
number_of led = 5
number_of buzzer = 6
number_of sensor = 7

abbrev pub same : Mutex → Mutex → Bool
same m n = number_of m == number_of n

abbrev pub has : Mutex → List Mutex → Bool
has m [] = false
has m (n ∷ ns) = same m n || has m ns

abbrev pub remove : Mutex → List Mutex → List Mutex
remove m [] = []
remove m (n ∷ ns) = if same m n then ns else n ∷ remove m ns

-- Some thread holds the mutex.
abbrev pub locked : Mutex → List Thread → Bool
locked m [] = false
locked m (t ∷ ts) = has m t.holds || locked m ts

-- Which thread of the list it is.
abbrev pub thread_of : Worker → ℕ
thread_of melody_tid = 0
thread_of segment_tid = 1

abbrev pub no_op : List Op → Bool
no_op [] = true
no_op (o ∷ os) = false

-- The thread has ended its round, or there is none.
abbrev pub ended : ℕ → List Thread → Bool
ended i [] = true
ended zero (t ∷ ts) = no_op t.rest
ended (suc i) (t ∷ ts) = ended i ts

abbrev pub enabled : List Thread → Op → Bool
enabled ts (lock m) = not (locked m ts)
enabled ts (unlock m) = true
enabled ts (join w) = ended (thread_of w) ts

abbrev pub held_after : Op → List Mutex → List Mutex
held_after (lock m) ms = m ∷ ms
held_after (unlock m) ms = remove m ms
held_after (join w) ms = ms

-- A thread does the first thing that is left of its round.
pub data Go : List Thread → List Thread → Type 0 where
  go :
      (i : ℕ) (ms : List Mutex) (o : Op) (os : List Op) {ts : List Thread}
      → get_elem? ts i ≡ some (record { holds = ms; rest = o ∷ os })
      → enabled ts o ≡ true
      → Go ts (put i (record { holds = held_after o ms; rest = os }) ts)

pub data Goes : ℕ → List Thread → List Thread → Type 0 where
  stay : {ts : List Thread} → Goes 0 ts ts
  more : {n : ℕ} {ts us vs : List Thread} → Go ts us → Goes n us vs → Goes (suc n) ts vs

-- The rounds of the threads, by their number: the melody thread, the countdown, the threads of the
-- LED, the buzzer and the sensor, `main`, and from 6 on the threads of clients.
pub data Round : ℕ → List Op → Type 0 where
  melody_round : Round 0 (brief state)
  segment_round : (f : Found) (count : ℕ) → Round 1 (countdown f count)
  led_round : Round 2 (brief led)
  buzzer_round : Round 3 (brief buzzer)
  sensor_round : (f : Found) (consec : ℕ) → Round 4 (watch f consec)
  main_round : (configured added created : Bool) → Round 5 (accepted configured added created)
  client_round : {i : ℕ} (f : Found) (r : Message) → 6 ≤ i → Round i (request f r)
  client_leaves : {i : ℕ} → 6 ≤ i → Round i (brief state)

-- One step of the server: of a round, the start of one, or a cancellation, whose handler is then all
-- that is left to do. `Cut` tells what the countdown thread may hold when it is cancelled.
pub data Step (Cut : List Mutex → Type 0) : List Thread → List Thread → Type 0 where
  own : {ts us : List Thread} → Go ts us → Step Cut ts us
  begin :
      (i : ℕ) (ms : List Mutex) (os : List Op) {ts : List Thread}
      → get_elem? ts i ≡ some (record { holds = ms; rest = [] })
      → Round i os
      → Step Cut ts (put i (record { holds = ms; rest = os }) ts)
  cancel :
      (ms : List Mutex) (os : List Op) (buzzer_owned : Bool) {ts : List Thread}
      → get_elem? ts 1 ≡ some (record { holds = ms; rest = os })
      → Cut ms
      → Step Cut ts (put 1 (record { holds = ms; rest = countdown_cleanup buzzer_owned }) ts)

pub data Steps (Cut : List Mutex → Type 0) : List Thread → List Thread → Type 0 where
  start : {ts : List Thread} → Steps Cut ts ts
  next : {ts us vs : List Thread} → Steps Cut ts us → Step Cut us vs → Steps Cut ts vs

abbrev pub remaining : List Thread → ℕ
remaining [] = 0
remaining (t ∷ ts) = length t.rest + remaining ts

-- So many threads, before their rounds.
abbrev pub at_rest : ℕ → List Thread
at_rest zero = []
at_rest (suc n) = record { holds = []; rest = [] } ∷ at_rest n

-- What the countdown thread holds at its cancellation: nothing, as at a `sleep`, or also the control
-- lock of the melody, as at the `pthread_join` under it.
abbrev pub Nothing : List Mutex → Type 0
Nothing ms = ms ≡ []

abbrev pub AnyPoint : List Mutex → Type 0
AnyPoint ms = (ms ≡ []) ⊎ (ms ≡ melody_control ∷ [])

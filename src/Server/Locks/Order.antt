-- ===== src/Server/Locks/Order.antt =====
-- Every function of server/ takes its locks, and waits for threads, in one order.
use linux_veda_4sensor_tcp_c.Prelude.{
  ℕ, zero, suc, ◌≤◌, ◌<◌, ◌≡◌, refl, sym, subst, ◌==◌, if◌then◌else◌, Bool, true, false, Bool-cases,
  inl, inr, List, [], ◌∷◌, ◌++◌, All, ltb, leb, ◌||◌, ◌&&◌, not, is_neg, arith,
}
use linux_veda_4sensor_tcp_c.Protocol.{
  Message, msg_cmd, msg_query, dev_led, dev_buzzer, dev_sensor, dev_segment, dev_system, act_on,
  act_off, act_set_brightness, act_set_number, act_get_status, act_alarm_off, act_play_melody,
  act_get_lux, brightness_low, brightness_high,
}
use linux_veda_4sensor_tcp_c.Server.Locks.Programs.{
  Mutex, state, led, buzzer, sensor, melody_tid, segment_tid, Op, lock, unlock, join, Found, brief,
  request, watch, countdown, countdown_cleanup, accepted, stop_melody, start_melody, stop_segment,
  start_segment, led_command, buzzer_command, segment_command, system_command, command, query,
  alarm, dark,
}
use linux_veda_4sensor_tcp_c.Server.Locks.Run.{
  number_of, thread_of, Round, melody_round, segment_round, led_round, buzzer_round, sensor_round,
  main_round, client_round, client_leaves,
}

-- The place of a wait in the order: a control lock comes before the thread that is joined under it.
abbrev pub rank : Op → ℕ
rank (lock m) = number_of m
rank (unlock m) = 0
rank (join segment_tid) = 1
rank (join melody_tid) = 3

-- What a thread may wait for at all, by its number: what a join waits for comes before it.
abbrev pub base : ℕ → ℕ
base zero = 4
base (suc zero) = 2
base (suc (suc n)) = 0

-- A wait comes behind the thread's base and all that the thread holds.
abbrev pub Behind : ℕ → List Mutex → ℕ → Type 0
Behind b ms r = (b ≤ r) × All (λ m. number_of m < r) ms

-- What is left of a round, with what is held: each wait is behind what is held, a lock is released
-- in the reverse order, and nothing is held at the end.
abbrev pub Ordered : ℕ → List Mutex → List Op → Type 0
Ordered b ms [] = ms ≡ []
Ordered b ms (lock m ∷ os) = Behind b ms (number_of m) × Ordered b (m ∷ ms) os
Ordered b [] (unlock m ∷ os) = ⊥
Ordered b (n ∷ ms) (unlock m ∷ os) = (m ≡ n) × Ordered b ms os
Ordered b ms (join w ∷ os) =
    Behind b ms (rank (join w)) × (rank (join w) < base (thread_of w)) × Ordered b ms os

pub append-Ordered :
    (b : ℕ) (ms : List Mutex) (os ps : List Op)
    → Ordered b ms os
    → Ordered b [] ps
    → Ordered b ms (os ++ ps)
append-Ordered b ms [] ps h h' = subst (λ l. Ordered b l ps) (sym h) h'
append-Ordered b ms (lock m ∷ os) ps (h, r) h' = (h, append-Ordered b (m ∷ ms) os ps r h')
append-Ordered b [] (unlock m ∷ os) ps h h' = h
append-Ordered b (n ∷ ms) (unlock m ∷ os) ps (h, r) h' = (h, append-Ordered b ms os ps r h')
append-Ordered b ms (join w ∷ os) ps (h, l, r) h' = (h, l, append-Ordered b ms os ps r h')

brief-Ordered : (b : ℕ) (m : Mutex) → b ≤ number_of m → Ordered b [] (brief m)
brief-Ordered b m h = ((h, tt), (refl, refl))

then_brief :
    (b : ℕ) (m : Mutex) (ps : List Op)
    → b ≤ number_of m
    → Ordered b [] ps
    → Ordered b [] (brief m ++ ps)
then_brief b m ps h h' = append-Ordered b [] (brief m) ps (brief-Ordered b m h) h'

abbrev briefs : List Mutex → List Op
briefs [] = []
briefs (m ∷ ms) = brief m ++ briefs ms

briefs-Ordered :
    (b : ℕ) (ms : List Mutex) → All (λ m. b ≤ number_of m) ms → Ordered b [] (briefs ms)
briefs-Ordered b [] h = refl
briefs-Ordered b (m ∷ ms) (h, hs) = then_brief b m (briefs ms) h (briefs-Ordered b ms hs)

stop_melody-Ordered : (b : ℕ) (f : Found) → b ≤ 2 → Ordered b [] (stop_melody f)
unfolding stop_melody
stop_melody-Ordered b f h = elim (Bool-cases f.melody_joinable) [
  | inl e ↦ rw e ((h, tt), ((omega arith, (omega arith, tt)), omega arith, (refl, refl)))
  | inr e ↦ rw e ((h, tt), (refl, refl))
]

start_melody-Ordered : (b : ℕ) (f : Found) → b ≤ 2 → Ordered b [] (start_melody f)
unfolding start_melody stop_melody
start_melody-Ordered b f h = stop_melody-Ordered b f h

stop_segment-Ordered : (f : Found) → Ordered 0 [] (stop_segment f)
unfolding stop_segment
stop_segment-Ordered f = elim (Bool-cases f.segment_joinable) [
  | inl e ↦ rw e ((omega arith, tt), ((omega arith, (omega arith, tt)), omega arith, (refl, refl)))
  | inr e ↦ rw e ((omega arith, tt), (refl, refl))
]

start_segment-Ordered : (f : Found) → Ordered 0 [] (start_segment f)
unfolding start_segment stop_segment
start_segment-Ordered f = stop_segment-Ordered f

-- A choice of the code between two programs.
if-Ordered :
    (b : ℕ) (test : Bool) (os ps : List Op)
    → Ordered b [] os
    → Ordered b [] ps
    → Ordered b [] (if test then os else ps)
if-Ordered b true os ps h h' = h
if-Ordered b false os ps h h' = h'

state_then : (b : ℕ) (m : Mutex) → b ≤ 4 → b ≤ number_of m → Ordered b [] (brief state ++ brief m)
state_then b m h h' = then_brief b state (brief m) h (brief-Ordered b m h')

led_command-Ordered : (c : Message) → Ordered 0 [] (led_command c)
unfolding led_command
led_command-Ordered c =
    let lit = state_then 0 led (omega arith) (omega arith) in
    if-Ordered 0 (c.action == act_on) _ _ lit (
      if-Ordered 0 (c.action == act_off) _ _ lit (
        if-Ordered 0 (c.action == act_set_brightness) _ _
          (if-Ordered 0 (ltb c.value brightness_low || ltb brightness_high c.value) _ _ refl lit)
          refl))

buzzer_command-Ordered : (f : Found) (c : Message) → Ordered 0 [] (buzzer_command f c)
unfolding buzzer_command
buzzer_command-Ordered f c =
    let stop = stop_melody-Ordered 0 f (omega arith) in
    let start = start_melody-Ordered 0 f (omega arith) in
    let sound =
      append-Ordered 0 [] (stop_melody f) (brief state ++ brief buzzer) stop
        (state_then 0 buzzer (omega arith) (omega arith)) in
    if-Ordered 0 (c.action == act_on) _ _ sound (
      if-Ordered 0 (c.action == act_off) _ _ sound (
        if-Ordered 0 (c.action == act_play_melody) _ _
          (append-Ordered 0 [] (start_melody f) _ start
            (if-Ordered 0 f.created _ _ (brief-Ordered 0 state (omega arith)) refl))
          refl))

segment_command-Ordered : (f : Found) (c : Message) → Ordered 0 [] (segment_command f c)
unfolding segment_command
segment_command-Ordered f c = if-Ordered 0 (c.action == act_off) _ _ (stop_segment-Ordered f) (
    if-Ordered 0 (not (c.action == act_set_number) || ltb c.value 1 || ltb 9 c.value) _ _ refl (
      append-Ordered 0 [] (start_segment f) _ (start_segment-Ordered f)
        (if-Ordered 0 f.created _ _ (brief-Ordered 0 state (omega arith)) refl)))

system_command-Ordered : (f : Found) (c : Message) → Ordered 0 [] (system_command f c)
unfolding system_command
system_command-Ordered f c =
    let quiet =
      then_brief 0 state (brief led ++ brief buzzer) (omega arith)
        (then_brief 0 led (brief buzzer) (omega arith) (brief-Ordered 0 buzzer (omega arith))) in
    if-Ordered 0 (c.action == act_alarm_off) _ _
      (append-Ordered 0 [] (stop_melody f) _ (stop_melody-Ordered 0 f (omega arith))
        (append-Ordered 0 [] (stop_segment f) _ (stop_segment-Ordered f) quiet))
      refl

request-Ordered : (f : Found) (r : Message) → Ordered 0 [] (request f r)
unfolding request command query
request-Ordered f r =
    if-Ordered 0 (r.type == msg_cmd) _ _
      (if-Ordered 0 (r.device == dev_led) _ _ (led_command-Ordered r) (
        if-Ordered 0 (r.device == dev_buzzer) _ _ (buzzer_command-Ordered f r) (
          if-Ordered 0 (r.device == dev_segment) _ _ (segment_command-Ordered f r)
            (if-Ordered 0 (r.device == dev_system) _ _ (system_command-Ordered f r) refl))))
      (if-Ordered 0 (r.type == msg_query) _ _
        (if-Ordered 0 ((r.device == dev_sensor) && (r.action == act_get_lux)) _ _
          (brief-Ordered 0 sensor (omega arith))
          (if-Ordered 0 (r.action == act_get_status) _ _ (brief-Ordered 0 state (omega arith))
            refl))
        refl)

alarm-Ordered : (f : Found) → Ordered 0 [] (alarm f)
unfolding alarm
alarm-Ordered f =
    let devices = led ∷ buzzer ∷ state ∷ state ∷ led ∷ buzzer ∷ state ∷ [] in
    append-Ordered 0 [] (stop_melody f) (briefs devices) (stop_melody-Ordered 0 f (omega arith))
      (briefs-Ordered 0 devices (omega arith))

watch-Ordered : (f : Found) (consec : ℕ) → Ordered 0 [] (watch f consec)
unfolding watch
watch-Ordered f consec = then_brief 0 sensor _ (omega arith) (
    if-Ordered 0 (is_neg f.lux) _ _ refl (
      if-Ordered 0 (dark f.lux) _ _
        (if-Ordered 0 (leb 3 (suc consec)) _ _
          (then_brief 0 state _ (omega arith) (if-Ordered 0 f.already _ _ refl (alarm-Ordered f)))
          refl)
        (brief-Ordered 0 state (omega arith))))

countdown-Ordered : (f : Found) (count : ℕ) → Ordered 2 [] (countdown f count)
unfolding countdown
countdown-Ordered f zero =
    let alert = state ∷ buzzer ∷ state ∷ state ∷ buzzer ∷ state ∷ [] in
    let rest = stop_melody f ++ briefs alert in
    then_brief 2 state (brief state ++ rest) (omega arith) (
      then_brief 2 state rest (omega arith) (
        append-Ordered 2 [] (stop_melody f) (briefs alert) (stop_melody-Ordered 2 f (omega arith))
          (briefs-Ordered 2 alert (omega arith))))
countdown-Ordered f (suc count) =
    then_brief 2 state (brief state ++ countdown f count) (omega arith)
      (then_brief 2 state (countdown f count) (omega arith) (countdown-Ordered f count))

pub cleanup-Ordered : (buzzer_owned : Bool) → Ordered 2 [] (countdown_cleanup buzzer_owned)
unfolding countdown_cleanup
cleanup-Ordered true = briefs-Ordered 2 (buzzer ∷ state ∷ []) (omega arith)
cleanup-Ordered false = brief-Ordered 2 state (omega arith)

base_client : (i : ℕ) → 6 ≤ i → base i ≡ 0
base_client zero h = absurd (omega arith)
base_client (suc zero) h = absurd (omega arith)
base_client (suc (suc n)) h = refl

-- Every round of the server keeps the order.
pub Round-Ordered : (i : ℕ) (os : List Op) → Round i os → Ordered (base i) [] os
unfolding accepted
Round-Ordered i os melody_round = brief-Ordered 4 state (omega arith)
Round-Ordered i os (segment_round f n) = countdown-Ordered f n
Round-Ordered i os led_round = brief-Ordered 0 led (omega arith)
Round-Ordered i os buzzer_round = brief-Ordered 0 buzzer (omega arith)
Round-Ordered i os (sensor_round f n) = watch-Ordered f n
Round-Ordered i os (main_round configured added created) =
    let one = brief-Ordered 0 state (omega arith) in
    if-Ordered 0 configured _ _
      (then_brief 0 state _ (omega arith)
        (if-Ordered 0 added _ _ (if-Ordered 0 created _ _ refl one) refl))
      refl
Round-Ordered i os (client_round f r h) =
    subst (λ b. Ordered b [] (request f r)) (sym (base_client i h)) (request-Ordered f r)
Round-Ordered i os (client_leaves h) =
    subst (λ b. Ordered b [] (brief state)) (sym (base_client i h))
      (brief-Ordered 0 state (omega arith))

-- ===== src/Server/Validity.antt =====
-- What holds of the flags of the server whenever no thread is within a step.
use linux_veda_4sensor_tcp_c.Prelude.{
  ℕ, suc, ◌*◌, ◌≤◌, ◌<◌, ◌≡◌, ◌⊎◌, ℤ, pos, negsuc, List, [], ◌∷◌, arith,
}
use linux_veda_4sensor_tcp_c.Protocol.{Message, act_on, act_off}
use linux_veda_4sensor_tcp_c.Server.State.{
  World, set_buzzer_state, MelodyThread, SegmentThread, SensorThread, Env, polling, alarming,
}
use linux_veda_4sensor_tcp_c.Server.Dispatch.{
  led_thread_step, buzzer_thread_step, dispatch_led, dispatch_buzzer,
}
use linux_veda_4sensor_tcp_c.Server.Clients.{broadcast_msg}
use linux_veda_4sensor_tcp_c.Server.Watch.{sensor_thread_step}
use linux_veda_4sensor_tcp_c.Server.Commands.{
  play_melody_command, handle_led_command, handle_buzzer_command, handle_segment_command,
  handle_system_command, handle_command, handle_query, respond,
}
use linux_veda_4sensor_tcp_c.Server.Accept.{Connection, accept_step, end_client, initial_world}
use linux_veda_4sensor_tcp_c.Server.System.{
  Action, led, buzzer, melody, segment, sensor, accept, request, leave, step, run,
}
use linux_veda_4sensor_tcp_c.Server.Melody.{
  stop_melody_locked, stop_melody_thread, start_melody_thread, melody_thread_step,
}
use linux_veda_4sensor_tcp_c.Server.Countdown.{
  stop_segment_locked, stop_segment_thread, start_segment_thread, segment_thread_step,
}

abbrev pub melody_live : MelodyThread → ℕ
melody_live MelodyThread.absent = 0
melody_live _ = 1

abbrev pub segment_live : SegmentThread → ℕ
segment_live SegmentThread.absent = 0
segment_live _ = 1

-- What `segment_value` is while the thread stands there: a thread that has just been started has
-- not shown its number yet, and stands before the round for it.
abbrev pub Counts : SegmentThread → ℤ → Type 0
Counts SegmentThread.absent v = v ≡ negsuc 0
Counts (SegmentThread.counting n) v = ((v ≡ pos n) ⊎ (v ≡ pos (suc n))) × (n ≤ 9)
Counts SegmentThread.ringing v = v ≡ pos 0
Counts SegmentThread.dimmed v = v ≡ negsuc 0

-- The sensor thread alone raises the alarm, and counts to three.
abbrev pub Watches : SensorThread → ℕ → Type 0
Watches (polling c) alarm = (alarm ≡ 0) × (c < 3)
Watches alarming alarm = alarm ≤ 1

pub record IsValid (w : World) : Type 0 where
  pub led_flag : w.state.led_state ≤ 1
  pub brightness : w.state.led_brightness ≤ 3 * w.state.led_state
  pub buzzer_flag : w.state.buzzer_state ≤ 1
  pub blocked_flag : w.state.sensor_blocked ≤ 1
  pub watches : Watches w.sensor w.state.alarm_active
  pub melody_alive : w.melody.running ≡ melody_live w.melody.thread
  pub melody_joins : w.melody.running ≤ w.melody.joinable
  pub melody_flag : w.melody.joinable ≤ 1
  pub segment_alive : w.segment.running ≡ segment_live w.segment.thread
  pub segment_joins : w.segment.running ≤ w.segment.joinable
  pub segment_flag : w.segment.joinable ≤ 1
  pub counts : Counts w.segment.thread w.state.segment_value

-- Each operation below is a step that keeps all of this.
pub stop_melody-IsValid : (env : Env) (w : World) → IsValid w → IsValid (stop_melody_locked env w)
unfolding stop_melody_locked
stop_melody-IsValid env w v = ground arith

pub stop_segment-IsValid : (w : World) → IsValid w → IsValid (stop_segment_locked w)
unfolding stop_segment_locked
stop_segment-IsValid w v = ground arith

start_melody-IsValid : (env : Env) (w : World) → IsValid w → IsValid (start_melody_thread env w).1
unfolding start_melody_thread
start_melody-IsValid env w v = ground arith

melody_thread-IsValid : (w : World) → IsValid w → IsValid (melody_thread_step w)
unfolding melody_thread_step
melody_thread-IsValid w v = ground arith

segment_thread-IsValid : (env : Env) (w : World) → IsValid w → IsValid (segment_thread_step env w)
unfolding segment_thread_step stop_melody_thread broadcast_msg
segment_thread-IsValid env w v = ground arith

sensor_thread-IsValid : (env : Env) (w : World) → IsValid w → IsValid (sensor_thread_step env w)
unfolding sensor_thread_step stop_melody_thread broadcast_msg dispatch_led dispatch_buzzer
sensor_thread-IsValid env w v = ground arith

led_thread-IsValid : (w : World) → IsValid w → IsValid (led_thread_step w)
unfolding led_thread_step
led_thread-IsValid w v = ground arith

buzzer_thread-IsValid : (w : World) → IsValid w → IsValid (buzzer_thread_step w)
unfolding buzzer_thread_step
buzzer_thread-IsValid w v = ground arith

led_command-IsValid : (c : Message) (w : World) → IsValid w → IsValid (handle_led_command c w).1
unfolding handle_led_command
led_command-IsValid c w v = ground arith

play_melody-IsValid :
    (env : Env) (c : Message) (w : World) → IsValid w → IsValid (play_melody_command env c w).1
unfolding play_melody_command
play_melody-IsValid env c w v = let u = start_melody-IsValid env w v in ground arith

-- The flag of the buzzer and the mailbox of its thread are set together.
sound-IsValid :
    (action n : ℕ) (w : World)
    → n ≤ 1
    → IsValid w
    → IsValid (dispatch_buzzer action (set_buzzer_state n w))
unfolding dispatch_buzzer
sound-IsValid action n w small v = ground arith

buzzer_command-IsValid :
    (env : Env) (c : Message) (w : World) → IsValid w → IsValid (handle_buzzer_command env c w).1
unfolding handle_buzzer_command stop_melody_thread
buzzer_command-IsValid env c w v =
    let u = stop_melody-IsValid env w v in
    let melody = play_melody-IsValid env c w v in
    let loud = sound-IsValid act_on 1 (stop_melody_locked env w) (omega arith) u in
    let quiet = sound-IsValid act_off 0 (stop_melody_locked env w) (omega arith) u in
    ground (arith, melody, loud, quiet)

segment_command-IsValid :
    (env : Env) (c : Message) (w : World) → IsValid w → IsValid (handle_segment_command env c w).1
unfolding handle_segment_command start_segment_thread stop_segment_thread
segment_command-IsValid env c w v = ground arith

system_command-IsValid :
    (env : Env) (c : Message) (w : World) → IsValid w → IsValid (handle_system_command env c w).1
unfolding handle_system_command stop_melody_thread stop_segment_thread
system_command-IsValid env c w v = ground arith

command-IsValid :
    (env : Env) (c : Message) (w : World) → IsValid w → IsValid (handle_command env c w).1
unfolding handle_command
command-IsValid env c w v = ground (
  arith,
  led_command-IsValid c w v,
  buzzer_command-IsValid env c w v,
  segment_command-IsValid env c w v,
  system_command-IsValid env c w v,
)

query-IsValid : (env : Env) (q : Message) (w : World) → IsValid w → IsValid (handle_query env q w).1
unfolding handle_query
query-IsValid env q w v = ground arith

respond-IsValid : (env : Env) (r : Message) (w : World) → IsValid w → IsValid (respond env r w).1
unfolding respond
respond-IsValid env r w v = ground (arith, command-IsValid env r w v, query-IsValid env r w v)

accept-IsValid : (c : Connection) (w : World) → IsValid w → IsValid (accept_step c w)
unfolding accept_step
accept-IsValid c w v = ground arith

end_client-IsValid : (fd : ℤ) (w : World) → IsValid w → IsValid (end_client fd w)
unfolding end_client
end_client-IsValid fd w v = ground arith

-- Every step of every thread, and every request, whatever its bytes, keeps the flags valid.
pub step-IsValid : (a : Action) (w : World) → IsValid w → IsValid (step a w)
unfolding step
step-IsValid led w v = led_thread-IsValid w v
step-IsValid buzzer w v = buzzer_thread-IsValid w v
step-IsValid melody w v = melody_thread-IsValid w v
step-IsValid (segment env) w v = segment_thread-IsValid env w v
step-IsValid (sensor env) w v = sensor_thread-IsValid env w v
step-IsValid (accept c) w v = accept-IsValid c w v
step-IsValid (request env r) w v = respond-IsValid env r w v
step-IsValid (leave fd) w v = ground (arith, end_client-IsValid fd w v)

initial-IsValid : IsValid initial_world
initial-IsValid = ground arith

pub run_from-IsValid : (acts : List Action) (w : World) → IsValid w → IsValid (run acts w)
unfolding run
run_from-IsValid [] w v = v
run_from-IsValid (a ∷ rest) w v = run_from-IsValid rest (step a w) (step-IsValid a w v)

-- From the start, through any interleaving of the threads' steps and any requests: `led_state`,
-- `buzzer_state` and `sensor_blocked` are 0 or 1, the brightness is at most 3 and 0 while the LED
-- is off, the alarm is never active while the sensor thread polls, whose count stays below 3, the
-- running flag of the melody and of the countdown is set exactly while the thread is there and then
-- the thread can be joined, and `segment_value` is -1 while there is no countdown thread or it has
-- dimmed the digit, 0 while it rings, and otherwise the number whose round comes next or the one
-- above it, of which the former is at most 9.
pub run-IsValid : (acts : List Action) → IsValid (run acts initial_world)
run-IsValid acts = run_from-IsValid acts initial_world initial-IsValid

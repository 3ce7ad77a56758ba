-- ===== src/Server/DigitLaws.antt =====
-- The digit on the display and `segment_value` of server/: the countdown thread and lib/segment.c
-- together.
mod Frames
use Frames.{
  display-pins, DigitFrame, accept-DigitFrame, buzzer_command-DigitFrame, buzzer_thread-DigitFrame,
  end_client-DigitFrame, led_command-DigitFrame, led_thread-DigitFrame, melody_thread-DigitFrame,
  query-DigitFrame, sensor_thread-DigitFrame, stop_melody-DigitFrame,
}
use linux_veda_4sensor_tcp_c.Prelude.{
  ℕ, zero, suc, ◌≤◌, ◌<◌, ◌≡◌, ◌⊎◌, refl, inl, inr, ℤ, pos, negsuc, Bool-cases, Option, some, List,
  [], ◌∷◌, arith,
}
use linux_veda_4sensor_tcp_c.Protocol.{Message, message, msg_event, dev_segment, evt_countdown}
use linux_veda_4sensor_tcp_c.Wiring.{g_seg_pins}
use linux_veda_4sensor_tcp_c.Devices.Led.{led_init}
use linux_veda_4sensor_tcp_c.Devices.Buzzer.{buzzer_init}
use linux_veda_4sensor_tcp_c.Devices.Sensor.{sensor_init}
use linux_veda_4sensor_tcp_c.Devices.Segment.{segment_init}
use linux_veda_4sensor_tcp_c.Devices.SegmentLaws.{glass, shape, blank, segment_display-shown}
use linux_veda_4sensor_tcp_c.Server.State.{
  World, Env, SegmentThread, absent, counting, ringing, dimmed,
}
use linux_veda_4sensor_tcp_c.Server.Dispatch.{dispatch_led, dispatch_buzzer}
use linux_veda_4sensor_tcp_c.Server.Clients.{broadcast_msg}
use linux_veda_4sensor_tcp_c.Server.Melody.{stop_melody_locked, stop_melody_thread}
use linux_veda_4sensor_tcp_c.Server.Countdown.{
  show, stop_segment_locked, stop_segment_thread, start_segment_thread, segment_thread_step,
  segment_thread_from, countdown_round,
}
use linux_veda_4sensor_tcp_c.Server.Watch.{sensor_thread_step}
use linux_veda_4sensor_tcp_c.Server.Commands.{
  handle_segment_command, handle_system_command, alarm_off_command, handle_command, handle_query,
  respond,
}
use linux_veda_4sensor_tcp_c.Server.Accept.{Setup, initialize_hardware, initial_world}
use linux_veda_4sensor_tcp_c.Server.System.{
  Action, led, buzzer, melody, segment, sensor, accept, request, leave, has_handler, step, run,
}
use linux_veda_4sensor_tcp_c.Server.Validity.{IsValid, step-IsValid, stop_melody-IsValid}

-- The segments `g` that are lit and the value `v` of `segment_value`, by where the countdown stands. A thread that has just been started has not shown its number.
abbrev pub Digit : SegmentThread → ℤ → List (Option ℕ) → Type 0
Digit absent v g = (v ≡ negsuc 0) × (g ≡ blank)
Digit (counting n) v g =
    (n ≤ 9) × (((v ≡ pos n) × (g ≡ blank)) ⊎ ((n < 9) × (v ≡ pos (suc n)) × (g ≡ shape (suc n))))
Digit ringing v g = (v ≡ pos 0) × (g ≡ shape 0)
Digit dimmed v g = (v ≡ negsuc 0) × (g ≡ blank)

pub record Shows (w : World) : Type 0 where
  pub pins : w.board.segment_pins ≡ g_seg_pins
  pub digit : Digit w.segment.thread w.state.segment_value (glass w.board.calls)

DigitFrame-Shows : (w v : World) → DigitFrame w v → Shows w → Shows v
DigitFrame-Shows w v f s = ground arith

-- No countdown, and a dark digit.
record IsDark (w : World) : Type 0 where
  pins : w.board.segment_pins ≡ g_seg_pins
  thread : w.segment.thread ≡ absent
  value : w.state.segment_value ≡ negsuc 0
  digit : glass w.board.calls ≡ blank

stop_segment-IsDark : (w : World) → IsValid w → Shows w → IsDark (stop_segment_locked w)
unfolding stop_segment_locked
stop_segment-IsDark w v s =
    ground (arith, segment_display-shown (negsuc 0) w.board s.pins, display-pins (negsuc 0) w.board)

IsDark-Shows : (w : World) → IsDark w → Shows w
IsDark-Shows w d = ground arith

-- A countdown that has just been started, or that could not be.
segment_command-Shows :
    (env : Env) (c : Message) (w : World)
    → IsValid w
    → Shows w
    → Shows (handle_segment_command env c w).1
unfolding handle_segment_command start_segment_thread stop_segment_thread
segment_command-Shows env c w v s = let d = stop_segment-IsDark w v s in ground arith

alarm_off-Shows : (env : Env) (w : World) → IsValid w → Shows w → Shows (alarm_off_command env w)
unfolding alarm_off_command stop_segment_thread stop_melody_thread
alarm_off-Shows env w v s =
    let u = stop_melody_locked env w in
    let d =
      stop_segment-IsDark u (stop_melody-IsValid env w v)
        (DigitFrame-Shows w u (stop_melody-DigitFrame env w) s) in
    ground arith

command-Shows :
    (env : Env) (c : Message) (w : World) → IsValid w → Shows w → Shows (handle_command env c w).1
unfolding handle_command handle_system_command
command-Shows env c w v s = ground (
  arith,
  DigitFrame-Shows w _ (led_command-DigitFrame c w) s,
  DigitFrame-Shows w _ (buzzer_command-DigitFrame env c w) s,
  segment_command-Shows env c w v s,
  alarm_off-Shows env w v s,
)

respond-Shows :
    (env : Env) (r : Message) (w : World) → IsValid w → Shows w → Shows (respond env r w).1
unfolding respond
respond-Shows env r w v s =
    ground (arith, command-Shows env r w v s, DigitFrame-Shows w _ (query-DigitFrame env r w) s)

-- The rounds of the countdown.
countdown-Shows :
    (env : Env) (n : ℕ) (w : World)
    → w.segment.thread ≡ counting n
    → Shows w
    → Shows (countdown_round env n w)
unfolding countdown_round dispatch_buzzer broadcast_msg stop_melody_thread
countdown-Shows env zero w e s =
    let told = broadcast_msg env (message msg_event dev_segment evt_countdown 0) (show (pos 0) w) in
    ground (
      arith,
      segment_display-shown (pos 0) w.board s.pins,
      display-pins (pos 0) w.board,
      stop_melody-DigitFrame env told,
    )
countdown-Shows env (suc n) w e s =
    ground (
      arith,
      segment_display-shown (pos (suc n)) w.board s.pins,
      display-pins (pos (suc n)) w.board,
    )

segment_thread-Shows :
    (env : Env) (t : SegmentThread) (w : World)
    → w.segment.thread ≡ t
    → Shows w
    → Shows (segment_thread_from t env w)
unfolding dispatch_buzzer
segment_thread-Shows env absent w e s = s
segment_thread-Shows env (counting n) w e s = countdown-Shows env n w e s
segment_thread-Shows env ringing w e s =
    ground (arith, segment_display-shown (negsuc 0) w.board s.pins, display-pins (negsuc 0) w.board)
segment_thread-Shows env dimmed w e s = ground arith

step-Shows : (a : Action) (w : World) → IsValid w → Shows w → Shows (step a w)
unfolding step segment_thread_step sensor_thread_step
step-Shows led w v s = DigitFrame-Shows w _ (led_thread-DigitFrame w) s
step-Shows buzzer w v s = DigitFrame-Shows w _ (buzzer_thread-DigitFrame w) s
step-Shows melody w v s = DigitFrame-Shows w _ (melody_thread-DigitFrame w) s
step-Shows (segment env) w v s = segment_thread-Shows env w.segment.thread w refl s
step-Shows (sensor env) w v s = DigitFrame-Shows w _ (sensor_thread-DigitFrame env w.sensor w) s
step-Shows (accept c) w v s = DigitFrame-Shows w _ (accept-DigitFrame c w) s
step-Shows (request env r) w v s = respond-Shows env r w v s
step-Shows (leave fd) w v s = elim (Bool-cases (has_handler fd w.handlers)) [
  | inl there ↦ rw there (DigitFrame-Shows w _ (end_client-DigitFrame fd w) s)
  | inr gone ↦ rw gone s
]

run_from-Shows : (acts : List Action) (w : World) → IsValid w → Shows w → Shows (run acts w)
unfolding run
run_from-Shows [] w v s = s
run_from-Shows (a ∷ acts) w v s =
    run_from-Shows acts (step a w) (step-IsValid a w v) (step-Shows a w v s)

boot-IsDark :
    (r : Setup) (w : World) → initialize_hardware r initial_world ≡ some w → IsValid w × IsDark w
unfolding initialize_hardware led_init buzzer_init sensor_init segment_init glass
boot-IsDark r w e = ground arith

-- After any run of a server whose hardware was initialised, the lit segments are those of the
-- number in `segment_value`, and none when that is -1, except that a countdown thread that has not
-- run its first round has its number in `segment_value` and a dark digit.
pub run-Shows :
    (r : Setup) (w : World) (acts : List Action)
    → initialize_hardware r initial_world ≡ some w
    → Shows (run acts w)
run-Shows r w acts e = let (v, d) = boot-IsDark r w e in run_from-Shows acts w v (IsDark-Shows w d)

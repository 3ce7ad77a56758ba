-- ===== src/Server/LedLaws.antt =====
-- `led_state` of server/ and the light itself: the mailbox, the LED thread and lib/led.c together.
mod Frames
use Frames.{
  LedFrame, accept-LedFrame, buzzer_command-LedFrame, buzzer_thread-LedFrame, countdown-LedFrame,
  end_client-LedFrame, melody_thread-LedFrame, query-LedFrame, reading-LedFrame,
  segment_command-LedFrame, segment_thread-LedFrame, stop_melody-LedFrame, stop_segment-LedFrame,
}
use linux_veda_4sensor_tcp_c.Prelude.{
  ℕ, zero, suc, ◌≤◌, ◌<◌, ◌≡◌, refl, ap, sym, ◌∙◌, inl, inr, ℤ, pos, negsuc, ◌==◌, ==ℤ_refl, ◌==ℤ◌,
  if◌then◌else◌, ltb, Bool-cases, Option, none, some, List, [], ◌∷◌, arith,
}
use linux_veda_4sensor_tcp_c.Protocol.{Message, act_on, act_off, act_set_brightness}
use linux_veda_4sensor_tcp_c.Devices.Board.{Board, Call}
use linux_veda_4sensor_tcp_c.Devices.Led.{duty_of, led_on, led_off, led_set_brightness}
use linux_veda_4sensor_tcp_c.Devices.Buzzer.{buzzer_on, buzzer_off, play_note}
use linux_veda_4sensor_tcp_c.Devices.Segment.{segment_display, all_high, write_pattern}
use linux_veda_4sensor_tcp_c.Devices.Sensor.{sensor_read}
use linux_veda_4sensor_tcp_c.Devices.Readback.{duty}
use linux_veda_4sensor_tcp_c.Server.State.{
  World, Env, set_board, SensorThread, polling, alarming, SegmentThread, counting, ringing, dimmed,
}
use linux_veda_4sensor_tcp_c.Server.Dispatch.{
  led_thread_step, buzzer_thread_step, dispatch_led, dispatch_buzzer, apply_led, apply_buzzer,
}
use linux_veda_4sensor_tcp_c.Server.Clients.{broadcast_msg}
use linux_veda_4sensor_tcp_c.Server.Melody.{
  stop_melody_locked, stop_melody_thread, start_melody_thread, melody_thread_step,
}
use linux_veda_4sensor_tcp_c.Server.Countdown.{
  stop_segment_locked, stop_segment_thread, start_segment_thread, segment_thread_step,
  segment_thread_from, countdown_round,
}
use linux_veda_4sensor_tcp_c.Server.Watch.{
  sensor_thread_step, sensor_thread_from, sound_alarm, raise_alarm, end_alarm, judge,
}
use linux_veda_4sensor_tcp_c.Server.Accept.{
  Connection, accept_step, end_client, Setup, initialize_hardware, initial_world,
}
use linux_veda_4sensor_tcp_c.Server.System.{
  Action, led, buzzer, melody, segment, sensor, accept, request, leave, has_handler, step, run,
}
use linux_veda_4sensor_tcp_c.Devices.Segment.{segment_init}
use linux_veda_4sensor_tcp_c.Devices.Led.{led_init}
use linux_veda_4sensor_tcp_c.Devices.Buzzer.{buzzer_init}
use linux_veda_4sensor_tcp_c.Devices.Sensor.{sensor_init}
use linux_veda_4sensor_tcp_c.Server.Commands.{
  handle_led_command, handle_buzzer_command, handle_segment_command, handle_system_command,
  handle_command, handle_query, respond, alarm_off_command,
}

-- The light as its pin was last told, and as the LED thread will have told it once its mailbox is
-- empty.
abbrev pub light : World → Option ℕ
light w = duty w.board.led_pin w.board.calls

abbrev pub next_light : World → Option ℕ
next_light w = light (led_thread_step w)

abbrev pub is_lit : Option ℕ → ℕ
is_lit none = 0
is_lit (some zero) = 0
is_lit (some (suc d)) = 1

-- The LED will be lit exactly if `led_state` says so.
abbrev pub LedAgrees : World → Type 0
LedAgrees w = w.state.led_state ≡ is_lit (next_light w)

LedFrame-LedAgrees : (w v : World) → LedFrame w.board.led_pin w v → LedAgrees w → LedAgrees v
unfolding led_thread_step led_on led_off led_set_brightness duty
LedFrame-LedAgrees w v f a = ground (arith, ==ℤ_refl w.board.led_pin)

-- The commands that set the LED write the flag and the mailbox together.
led_command-LedAgrees :
    (c : Message) (w : World) → LedAgrees w → LedAgrees (handle_led_command c w).1
unfolding handle_led_command led_thread_step led_on led_off led_set_brightness duty
led_command-LedAgrees c w a = ground (arith, ==ℤ_refl w.board.led_pin)

alarm_off-LedAgrees : (env : Env) (w : World) → LedAgrees (alarm_off_command env w)
unfolding alarm_off_command led_thread_step led_on led_off led_set_brightness duty
alarm_off-LedAgrees env w =
    ground (arith, ==ℤ_refl (stop_segment_thread (stop_melody_thread env w)).board.led_pin)

led_thread-LedAgrees : (w : World) → LedAgrees w → LedAgrees (led_thread_step w)
unfolding led_thread_step
led_thread-LedAgrees w a = ground arith

end_alarm-LedAgrees : (w : World) → LedAgrees (end_alarm w)
unfolding end_alarm dispatch_led dispatch_buzzer led_thread_step led_on led_off led_set_brightness
    duty
end_alarm-LedAgrees w = ground (arith, ==ℤ_refl w.board.led_pin)

sound_alarm-LedAgrees : (env : Env) (w : World) → LedAgrees (sound_alarm env w)
unfolding sound_alarm dispatch_led dispatch_buzzer broadcast_msg stop_melody_thread led_thread_step
    led_on led_off led_set_brightness duty
sound_alarm-LedAgrees env w = ground (arith, ==ℤ_refl w.board.led_pin)

judge-LedAgrees :
    (env : Env) (n : ℕ) (lux : ℤ) (w : World) → LedAgrees w → LedAgrees (judge env n lux w)
unfolding judge led_thread_step
judge-LedAgrees env n (negsuc k) w a = a
judge-LedAgrees env n (pos k) w a = ground (arith, sound_alarm-LedAgrees env w)

sensor_thread-LedAgrees :
    (env : Env) (t : SensorThread) (w : World)
    → LedAgrees w
    → LedAgrees (sensor_thread_from t env w)
sensor_thread-LedAgrees env (polling n) w a =
    let (lux, b) = sensor_read env.transfers w.board in
    judge-LedAgrees env n lux (set_board b w)
      (LedFrame-LedAgrees w (set_board b w) (reading-LedFrame w.board.led_pin env w) a)
sensor_thread-LedAgrees env alarming w a = end_alarm-LedAgrees w

command-LedAgrees :
    (env : Env) (c : Message) (w : World) → LedAgrees w → LedAgrees (handle_command env c w).1
unfolding handle_command handle_system_command
command-LedAgrees env c w a = ground (
  arith,
  led_command-LedAgrees c w a,
  LedFrame-LedAgrees w _ (buzzer_command-LedFrame w.board.led_pin env c w) a,
  LedFrame-LedAgrees w _ (segment_command-LedFrame w.board.led_pin env c w) a,
  alarm_off-LedAgrees env w,
)

respond-LedAgrees :
    (env : Env) (r : Message) (w : World) → LedAgrees w → LedAgrees (respond env r w).1
unfolding respond
respond-LedAgrees env r w a = ground (
  arith,
  command-LedAgrees env r w a,
  LedFrame-LedAgrees w _ (query-LedFrame w.board.led_pin env r w) a,
)

pub step-LedAgrees : (a : Action) (w : World) → LedAgrees w → LedAgrees (step a w)
unfolding step segment_thread_step sensor_thread_step
step-LedAgrees led w a = led_thread-LedAgrees w a
step-LedAgrees buzzer w a = LedFrame-LedAgrees w _ (buzzer_thread-LedFrame w.board.led_pin w) a
step-LedAgrees melody w a = LedFrame-LedAgrees w _ (melody_thread-LedFrame w.board.led_pin w) a
step-LedAgrees (segment env) w a =
    LedFrame-LedAgrees w _ (segment_thread-LedFrame w.board.led_pin env w.segment.thread w) a
step-LedAgrees (sensor env) w a = sensor_thread-LedAgrees env w.sensor w a
step-LedAgrees (accept c) w a = LedFrame-LedAgrees w _ (accept-LedFrame w.board.led_pin c w) a
step-LedAgrees (request env r) w a = respond-LedAgrees env r w a
step-LedAgrees (leave fd) w a = elim (Bool-cases (has_handler fd w.handlers)) [
  | inl there ↦ rw there (LedFrame-LedAgrees w _ (end_client-LedFrame w.board.led_pin fd w) a)
  | inr gone ↦ rw gone a
]

run_from-LedAgrees : (acts : List Action) (w : World) → LedAgrees w → LedAgrees (run acts w)
unfolding run
run_from-LedAgrees [] w a = a
run_from-LedAgrees (x ∷ acts) w a = run_from-LedAgrees acts (step x w) (step-LedAgrees x w a)

boot-LedAgrees :
    (r : Setup) (w : World) → initialize_hardware r initial_world ≡ some w → LedAgrees w
unfolding initialize_hardware led_init buzzer_init sensor_init segment_init led_thread_step duty
boot-LedAgrees r w e = ground arith

-- After any run of a server whose hardware was initialised, `led_state` is 1 exactly if the LED is
-- lit or the command that waits for the LED thread will light it: with the mailbox empty, the flag
-- that clients are told is the light.
pub run-LedAgrees :
    (r : Setup) (w : World) (acts : List Action)
    → initialize_hardware r initial_world ≡ some w
    → LedAgrees (run acts w)
run-LedAgrees r w acts e = run_from-LedAgrees acts w (boot-LedAgrees r w e)

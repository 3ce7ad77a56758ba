-- ===== src/Server/DigitLaws/Frames.antt =====
-- The steps of server/ that leave the digit, the countdown thread and `segment_value` alone.
use linux_veda_4sensor_tcp_c.Prelude.{
  ℕ, suc, refl, inl, inr, ltb, Bool-cases, [], ◌∷◌, ◌≡◌, ℤ, pos, negsuc, List, arith,
}
use linux_veda_4sensor_tcp_c.Protocol.{Message}
use linux_veda_4sensor_tcp_c.Devices.Board.{Board}
use linux_veda_4sensor_tcp_c.Devices.Segment.{segment_display, all_high, write_pattern}
use linux_veda_4sensor_tcp_c.Devices.Led.{led_on, led_off, led_set_brightness}
use linux_veda_4sensor_tcp_c.Devices.Buzzer.{buzzer_on, buzzer_off, play_note}
use linux_veda_4sensor_tcp_c.Devices.Sensor.{sensor_read}
use linux_veda_4sensor_tcp_c.Devices.SegmentLaws.{glass}
use linux_veda_4sensor_tcp_c.Server.State.{World, Env, set_board, SensorThread, polling, alarming}
use linux_veda_4sensor_tcp_c.Server.Dispatch.{
  led_thread_step, buzzer_thread_step, dispatch_led, dispatch_buzzer,
}
use linux_veda_4sensor_tcp_c.Server.Clients.{broadcast_msg}
use linux_veda_4sensor_tcp_c.Server.Melody.{
  stop_melody_locked, stop_melody_thread, start_melody_thread, melody_thread_step,
}
use linux_veda_4sensor_tcp_c.Server.Watch.{judge, sensor_thread_from, sound_alarm, end_alarm}
use linux_veda_4sensor_tcp_c.Server.Accept.{Connection, accept_step, end_client}
use linux_veda_4sensor_tcp_c.Server.Commands.{
  handle_led_command, handle_buzzer_command, handle_query,
}

all_high-pins : (ps : List ℤ) (b : Board) → (all_high ps b).segment_pins ≡ b.segment_pins
unfolding all_high
all_high-pins [] b = refl
all_high-pins (p ∷ ps) b = all_high-pins ps _

write_pattern-pins :
    (n i : ℕ) (ps : List ℤ) (b : Board) → (write_pattern n i ps b).segment_pins ≡ b.segment_pins
unfolding write_pattern
write_pattern-pins n i [] b = refl
write_pattern-pins n i (p ∷ ps) b = write_pattern-pins n (suc i) ps _

-- The display does not change which pins it has.
pub display-pins : (d : ℤ) (b : Board) → (segment_display d b).segment_pins ≡ b.segment_pins
unfolding segment_display
display-pins (negsuc n) b = all_high-pins b.segment_pins b
display-pins (pos d) b = elim (Bool-cases (ltb 9 d)) [
  | inl big ↦ rw big refl
  | inr small ↦ rw small (write_pattern-pins _ 0 b.segment_pins b)
]

pub record DigitFrame (w v : World) : Type 0 where
  pub pins : v.board.segment_pins ≡ w.board.segment_pins
  pub same : glass v.board.calls ≡ glass w.board.calls
  pub thread : v.segment.thread ≡ w.segment.thread
  pub value : v.state.segment_value ≡ w.state.segment_value

pub led_thread-DigitFrame : (w : World) → DigitFrame w (led_thread_step w)
unfolding led_thread_step led_on led_off led_set_brightness glass
led_thread-DigitFrame w = ground arith

pub buzzer_thread-DigitFrame : (w : World) → DigitFrame w (buzzer_thread_step w)
unfolding buzzer_thread_step buzzer_on buzzer_off glass
buzzer_thread-DigitFrame w = ground arith

pub melody_thread-DigitFrame : (w : World) → DigitFrame w (melody_thread_step w)
unfolding melody_thread_step play_note glass
melody_thread-DigitFrame w = ground arith

pub stop_melody-DigitFrame : (env : Env) (w : World) → DigitFrame w (stop_melody_locked env w)
unfolding stop_melody_locked glass
stop_melody-DigitFrame env w = ground arith

pub led_command-DigitFrame : (c : Message) (w : World) → DigitFrame w (handle_led_command c w).1
unfolding handle_led_command
led_command-DigitFrame c w = ground arith

pub buzzer_command-DigitFrame :
    (env : Env) (c : Message) (w : World) → DigitFrame w (handle_buzzer_command env c w).1
unfolding handle_buzzer_command start_melody_thread stop_melody_thread
buzzer_command-DigitFrame env c w = let f = stop_melody-DigitFrame env w in ground arith

pub query-DigitFrame : (env : Env) (q : Message) (w : World) → DigitFrame w (handle_query env q w).1
unfolding handle_query sensor_read glass
query-DigitFrame env q w = ground arith

reading-DigitFrame :
    (env : Env) (w : World) → DigitFrame w (set_board (sensor_read env.transfers w.board).1 w)
unfolding sensor_read glass
reading-DigitFrame env w = ground arith

sound_alarm-DigitFrame : (env : Env) (w : World) → DigitFrame w (sound_alarm env w)
unfolding sound_alarm dispatch_led dispatch_buzzer stop_melody_thread broadcast_msg glass
sound_alarm-DigitFrame env w = ground arith

judge-DigitFrame : (env : Env) (n : ℕ) (lux : ℤ) (w : World) → DigitFrame w (judge env n lux w)
unfolding judge
judge-DigitFrame env n (negsuc k) w = ground arith
judge-DigitFrame env n (pos k) w = let f = sound_alarm-DigitFrame env w in ground (arith)

DigitFrame-trans : (u v w : World) → DigitFrame u v → DigitFrame v w → DigitFrame u w
DigitFrame-trans u v w f g = ground arith

pub sensor_thread-DigitFrame :
    (env : Env) (t : SensorThread) (w : World) → DigitFrame w (sensor_thread_from t env w)
unfolding end_alarm dispatch_led dispatch_buzzer
sensor_thread-DigitFrame env (polling n) w =
    DigitFrame-trans w _ _ (reading-DigitFrame env w)
      (judge-DigitFrame env n (sensor_read env.transfers w.board).0 _)
sensor_thread-DigitFrame env alarming w = ground arith

pub accept-DigitFrame : (c : Connection) (w : World) → DigitFrame w (accept_step c w)
unfolding accept_step
accept-DigitFrame c w = ground arith

pub end_client-DigitFrame : (fd : ℤ) (w : World) → DigitFrame w (end_client fd w)
unfolding end_client
end_client-DigitFrame fd w = ground arith

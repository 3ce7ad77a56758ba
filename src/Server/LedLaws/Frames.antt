-- ===== src/Server/LedLaws/Frames.antt =====
-- The steps of server/ that leave the LED, its mailbox and its flag alone.
use linux_veda_4sensor_tcp_c.Prelude.{
  ℕ, zero, suc, ◌≡◌, refl, inl, inr, ℤ, pos, negsuc, ltb, Bool-cases, List, [], ◌∷◌, arith,
}
use linux_veda_4sensor_tcp_c.Protocol.{Message}
use linux_veda_4sensor_tcp_c.Devices.Board.{Board}
use linux_veda_4sensor_tcp_c.Devices.Buzzer.{buzzer_on, buzzer_off, play_note}
use linux_veda_4sensor_tcp_c.Devices.Segment.{segment_display, all_high, write_pattern}
use linux_veda_4sensor_tcp_c.Devices.Sensor.{sensor_read}
use linux_veda_4sensor_tcp_c.Devices.Readback.{duty}
use linux_veda_4sensor_tcp_c.Server.State.{
  World, Env, set_board, SegmentThread, counting, ringing, dimmed,
}
use linux_veda_4sensor_tcp_c.Server.Dispatch.{buzzer_thread_step, dispatch_buzzer}
use linux_veda_4sensor_tcp_c.Server.Clients.{broadcast_msg}
use linux_veda_4sensor_tcp_c.Server.Melody.{
  stop_melody_locked, stop_melody_thread, start_melody_thread, melody_thread_step,
}
use linux_veda_4sensor_tcp_c.Server.Countdown.{
  stop_segment_locked, stop_segment_thread, start_segment_thread, segment_thread_from,
  countdown_round,
}
use linux_veda_4sensor_tcp_c.Server.Accept.{Connection, accept_step, end_client}
use linux_veda_4sensor_tcp_c.Server.Commands.{
  handle_buzzer_command, handle_segment_command, handle_query,
}

-- What the other devices do leaves the LED's pin alone.
pub record SameLed (p : ℤ) (b c : Board) : Type 0 where
  pub pin : c.led_pin ≡ b.led_pin
  pub same : duty p c.calls ≡ duty p b.calls

pub all_high-SameLed : (p : ℤ) (ps : List ℤ) (b : Board) → SameLed p b (all_high ps b)
unfolding all_high duty
all_high-SameLed p [] b = record { pin = refl; same = refl }
all_high-SameLed p (x ∷ ps) b =
    let r = all_high-SameLed p ps _ in record { pin = r.pin; same = r.same }

pub write_pattern-SameLed :
    (p : ℤ) (n i : ℕ) (ps : List ℤ) (b : Board) → SameLed p b (write_pattern n i ps b)
unfolding write_pattern duty
write_pattern-SameLed p n i [] b = record { pin = refl; same = refl }
write_pattern-SameLed p n i (x ∷ ps) b =
    let r = write_pattern-SameLed p n (suc i) ps _ in record { pin = r.pin; same = r.same }

pub display-SameLed : (p d : ℤ) (b : Board) → SameLed p b (segment_display d b)
unfolding segment_display
display-SameLed p (negsuc n) b = all_high-SameLed p b.segment_pins b
display-SameLed p (pos d) b = elim (Bool-cases (ltb 9 d)) [
  | inl big ↦ rw big (record { pin = refl; same = refl })
  | inr small ↦ rw small (write_pattern-SameLed p _ 0 b.segment_pins b)
]

-- A step that does not concern the LED.
pub record LedFrame (p : ℤ) (w v : World) : Type 0 where
  pub mailbox : v.led_cmd ≡ w.led_cmd
  pub flag : v.state.led_state ≡ w.state.led_state
  pub board : SameLed p w.board v.board

pub buzzer_thread-LedFrame : (p : ℤ) (w : World) → LedFrame p w (buzzer_thread_step w)
unfolding buzzer_thread_step buzzer_on buzzer_off duty
buzzer_thread-LedFrame p w = ground arith

pub melody_thread-LedFrame : (p : ℤ) (w : World) → LedFrame p w (melody_thread_step w)
unfolding melody_thread_step play_note duty
melody_thread-LedFrame p w = ground arith

pub stop_melody-LedFrame : (p : ℤ) (env : Env) (w : World) → LedFrame p w (stop_melody_locked env w)
unfolding stop_melody_locked duty
stop_melody-LedFrame p env w = ground arith

pub stop_segment-LedFrame : (p : ℤ) (w : World) → LedFrame p w (stop_segment_locked w)
unfolding stop_segment_locked
stop_segment-LedFrame p w = ground (arith, display-SameLed p (negsuc 0) w.board)

pub buzzer_command-LedFrame :
    (p : ℤ) (env : Env) (c : Message) (w : World) → LedFrame p w (handle_buzzer_command env c w).1
unfolding handle_buzzer_command start_melody_thread stop_melody_thread duty
buzzer_command-LedFrame p env c w = ground arith

pub segment_command-LedFrame :
    (p : ℤ) (env : Env) (c : Message) (w : World) → LedFrame p w (handle_segment_command env c w).1
unfolding handle_segment_command start_segment_thread stop_segment_thread
segment_command-LedFrame p env c w = ground (arith, display-SameLed p (negsuc 0) w.board)

pub query-LedFrame :
    (p : ℤ) (env : Env) (q : Message) (w : World) → LedFrame p w (handle_query env q w).1
unfolding handle_query sensor_read duty
query-LedFrame p env q w = ground arith

pub reading-LedFrame :
    (p : ℤ) (env : Env) (w : World)
    → LedFrame p w (set_board (sensor_read env.transfers w.board).1 w)
unfolding sensor_read duty
reading-LedFrame p env w = ground arith

-- The round of the countdown, and its other steps.
pub countdown-LedFrame :
    (p : ℤ) (env : Env) (n : ℕ) (w : World) → LedFrame p w (countdown_round env n w)
unfolding countdown_round dispatch_buzzer stop_melody_thread broadcast_msg duty
countdown-LedFrame p env zero w = ground (arith, display-SameLed p (pos 0) w.board)
countdown-LedFrame p env (suc n) w = ground (arith, display-SameLed p (pos (suc n)) w.board)

pub segment_thread-LedFrame :
    (p : ℤ) (env : Env) (t : SegmentThread) (w : World) → LedFrame p w (segment_thread_from t env w)
unfolding dispatch_buzzer
segment_thread-LedFrame p env SegmentThread.absent w = ground arith
segment_thread-LedFrame p env (counting n) w = countdown-LedFrame p env n w
segment_thread-LedFrame p env ringing w = ground (arith, display-SameLed p (negsuc 0) w.board)
segment_thread-LedFrame p env dimmed w = ground arith

-- The client table is none of the LED's business either.
pub accept-LedFrame : (p : ℤ) (c : Connection) (w : World) → LedFrame p w (accept_step c w)
unfolding accept_step
accept-LedFrame p c w = ground arith

pub end_client-LedFrame : (p fd : ℤ) (w : World) → LedFrame p w (end_client fd w)
unfolding end_client
end_client-LedFrame p fd w = ground arith

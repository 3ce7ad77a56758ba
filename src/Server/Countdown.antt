-- ===== src/Server/Countdown.antt =====
-- The countdown thread of server/handler.c, from its start to its end, and its control.
use linux_veda_4sensor_tcp_c.Prelude.{ℕ, zero, suc, ◌%◌, ℤ, pos, negsuc, ◌==◌, if◌then◌else◌}
use linux_veda_4sensor_tcp_c.Protocol.{
  message, msg_event, dev_segment, dev_buzzer, evt_countdown, evt_alarm_triggered, act_on, act_off,
}
use linux_veda_4sensor_tcp_c.Devices.Segment.{segment_display}
use linux_veda_4sensor_tcp_c.Server.State.{
  World, SegmentThread, absent, counting, ringing, dimmed, Env, set_board, set_buzzer_state,
  set_segment_value, log_event, countdown_reached_0, buzzer_auto_off,
}
use linux_veda_4sensor_tcp_c.Server.Dispatch.{dispatch_buzzer}
use linux_veda_4sensor_tcp_c.Server.Clients.{broadcast_msg}
use linux_veda_4sensor_tcp_c.Server.Melody.{stop_melody_thread}

-- `fp_segment_display` and the write of `segment_value` behind it.
abbrev pub show : ℤ → World → World
show n w = set_segment_value n (set_board (segment_display n w.board) w)

abbrev pub segment_gone : World → World
segment_gone w = record w { segment = record (w.segment) { running = 0; thread = absent } }

-- `seg_cleanup`, the last thing that a cancelled thread does; `buzzer_owned` is its argument.
unfoldable pub seg_cleanup : ℕ → World → World
unfolding dispatch_buzzer
seg_cleanup buzzer_owned w =
    let w₁ = set_board (segment_display (negsuc 0) w.board) w in
    let w₂ = if buzzer_owned == 0 then w₁ else dispatch_buzzer act_off w₁ in
    let w₃ = set_segment_value (negsuc 0) w₂ in
    segment_gone (if buzzer_owned == 0 then w₃ else set_buzzer_state 0 w₃)

abbrev pub set_segment_thread : SegmentThread → World → World
set_segment_thread t w = record w { segment = record (w.segment) { thread = t } }

-- A round of the loop for `count` up to its `sleep`.
unfoldable pub countdown_round : Env → ℕ → World → World
countdown_round env (suc count) w = set_segment_thread (counting count) (
    broadcast_msg env (message msg_event dev_segment evt_countdown (suc count % 256))
      (show (pos (suc count)) w))
countdown_round env zero w =
    let w₁ = broadcast_msg env (message msg_event dev_segment evt_countdown 0) (show (pos 0) w) in
    let w₂ = dispatch_buzzer act_on (set_buzzer_state 1 (stop_melody_thread env w₁)) in
    let w₃ = broadcast_msg env (message msg_event dev_buzzer evt_alarm_triggered 0) w₂ in
    set_segment_thread ringing (log_event countdown_reached_0 w₃)

-- A step of the thread, from one sleep to the next.
abbrev pub segment_thread_from : SegmentThread → Env → World → World
segment_thread_from absent env w = w
segment_thread_from (counting count) env w = countdown_round env count w
segment_thread_from ringing env w = set_segment_thread dimmed (show (negsuc 0) w)
segment_thread_from dimmed env w =
    segment_gone (log_event buzzer_auto_off (set_buzzer_state 0 (dispatch_buzzer act_off w)))

unfoldable pub segment_thread_step : Env → World → World
unfolding countdown_round dispatch_buzzer
segment_thread_step env w = segment_thread_from w.segment.thread env w

-- The local `buzzer_owned` where the thread sleeps.
abbrev buzzer_owned : SegmentThread → ℕ
buzzer_owned ringing = 1
buzzer_owned dimmed = 1
buzzer_owned _ = 0

-- `pthread_cancel` and `pthread_join`: a thread that is still there is cancelled where it sleeps. The
-- store of 0 in `g_segment_running` is the last thing a thread does, so one that has done it is gone.
abbrev join_segment : SegmentThread → World → World
join_segment absent w = w
join_segment (counting n) w = seg_cleanup (buzzer_owned (counting n)) w
join_segment ringing w = seg_cleanup (buzzer_owned ringing) w
join_segment dimmed w = seg_cleanup (buzzer_owned dimmed) w

unfoldable pub stop_segment_locked : World → World
unfolding seg_cleanup
stop_segment_locked w =
    if w.segment.joinable == 0
    then w
    else let w₁ = if w.segment.running == 0 then w else join_segment w.segment.thread w in
      record w₁ { segment = record { running = 0; joinable = 0; thread = absent } }

unfoldable pub stop_segment_thread : World → World
unfolding stop_segment_locked
stop_segment_thread w = stop_segment_locked w

-- The result is that of `pthread_create`.
unfoldable pub start_segment_thread : Env → ℕ → World → ℕ × World
unfolding stop_segment_locked
start_segment_thread env start_value w =
    let w₁ = stop_segment_locked w in
    if env.create_segment == 0
    then (
      env.create_segment,
      record w₁ { segment = record { running = 1; joinable = 1; thread = counting start_value } },
    )
    else (env.create_segment, record w₁ { segment = record (w₁.segment) { running = 0 } })

-- ===== src/Server/FailureLaws.antt =====
-- What start_segment_thread and start_melody_thread of server/handler.c leave when there is no thread
-- to be had, and what the client is told.
use linux_veda_4sensor_tcp_c.Prelude.{ℕ, ◌≤◌, ◌≡◌, ◌≢◌, negsuc, ◌==◌, if◌then◌else◌, arith}
use linux_veda_4sensor_tcp_c.Protocol.{
  message, msg_cmd, msg_resp, dev_buzzer, dev_segment, act_set_number, act_play_melody, resp_err,
}
use linux_veda_4sensor_tcp_c.Server.State.{World, Env, MelodyThread, SegmentThread}
use linux_veda_4sensor_tcp_c.Server.Melody.{start_melody_thread}
use linux_veda_4sensor_tcp_c.Server.Countdown.{start_segment_thread}
use linux_veda_4sensor_tcp_c.Server.Commands.{
  respond, handle_command, handle_buzzer_command, play_melody_command, handle_segment_command,
}
use linux_veda_4sensor_tcp_c.Server.Validity.{IsValid, melody_live}

-- In a valid state, a countdown from 1 to 9 whose thread cannot be created is answered by an
-- error; one that ran before has ended, no thread is left to be joined, and `segment_value` is
-- -1.
pub countdown_refused :
    (env : Env) (value : ℕ) (w : World)
    → IsValid w
    → 1 ≤ value
    → value ≤ 9
    → env.create_segment ≢ 0
    → let r = respond env (message msg_cmd dev_segment act_set_number value) w in
      (r.0 ≡ message msg_resp dev_segment act_set_number resp_err)
      × (r.1.segment ≡ record { running = 0; joinable = 0; thread = SegmentThread.absent })
      × (r.1.state.segment_value ≡ negsuc 0)
unfolding respond handle_command handle_segment_command start_segment_thread
countdown_refused env value w v low high fails = ground arith

-- In a valid state, a melody whose thread cannot be created is answered by an error; one that
-- played before has ended, no thread is left to be joined, and `buzzer_state` is 0 if that
-- melody's thread was there and is not changed otherwise.
pub melody_refused :
    (env : Env) (value : ℕ) (w : World)
    → IsValid w
    → env.create_melody ≢ 0
    → let r = respond env (message msg_cmd dev_buzzer act_play_melody value) w in
      (r.0 ≡ message msg_resp dev_buzzer act_play_melody resp_err)
      × (r.1.melody ≡ record { running = 0; joinable = 0; thread = MelodyThread.absent })
      × (r.1.state.buzzer_state
          ≡ (if melody_live w.melody.thread == 0 then w.state.buzzer_state else 0))
unfolding respond handle_command handle_buzzer_command play_melody_command start_melody_thread
melody_refused env value w v fails = ground arith

-- ===== src/Server/AlarmLaws.antt =====
-- The alarm of server/handler.c: how it is switched off by a client, and what its start leaves.
use linux_veda_4sensor_tcp_c.Prelude.{ℕ, ◌+◌, ◌≡◌, ◌≢◌, refl, ==ℤ_refl, negsuc, some, arith}
use linux_veda_4sensor_tcp_c.Protocol.{
  Message, message, msg_cmd, msg_resp, msg_query, dev_system, dev_led, dev_buzzer, act_alarm_off,
  act_get_status, act_on, act_off, resp_ok,
}
use linux_veda_4sensor_tcp_c.Devices.Readback.{duty, tone}
use linux_veda_4sensor_tcp_c.Devices.Led.{led_off}
use linux_veda_4sensor_tcp_c.Devices.Buzzer.{buzzer_off}
use linux_veda_4sensor_tcp_c.Server.State.{World, Env, MelodyThread, SegmentThread, alarming}
use linux_veda_4sensor_tcp_c.Server.Dispatch.{
  led_thread_step, buzzer_thread_step, dispatch_led, dispatch_buzzer,
}
use linux_veda_4sensor_tcp_c.Server.Clients.{broadcast_msg}
use linux_veda_4sensor_tcp_c.Server.Melody.{stop_melody_thread}
use linux_veda_4sensor_tcp_c.Server.Countdown.{stop_segment_thread}
use linux_veda_4sensor_tcp_c.Server.Watch.{sound_alarm, sensor_thread_step}
use linux_veda_4sensor_tcp_c.Server.Commands.{
  alarm_off_command, handle_led_command, handle_command, handle_query, handle_system_command,
  respond,
}
use linux_veda_4sensor_tcp_c.Server.Validity.{IsValid, melody_live}

-- All is off, and no melody or countdown is left.
pub record IsQuiet (w : World) : Type 0 where
  pub alarm : w.state.alarm_active ≡ 0
  pub led : w.state.led_state ≡ 0
  pub brightness : w.state.led_brightness ≡ 0
  pub buzzer : w.state.buzzer_state ≡ 0
  pub digit : w.state.segment_value ≡ negsuc 0
  pub melody : w.melody.thread ≡ MelodyThread.absent
  pub countdown : w.segment.thread ≡ SegmentThread.absent
  pub led_duty : duty w.board.led_pin w.board.calls ≡ some 0
  pub buzzer_tone : tone w.board.buzzer_pin w.board.calls ≡ some 0

abbrev pub alarm_off_request : ℕ → Message
alarm_off_request value = message msg_cmd dev_system act_alarm_off value

settle-IsQuiet :
    (env : Env) (w : World)
    → IsValid w
    → let v = alarm_off_command env w in
      IsQuiet (buzzer_thread_step (led_thread_step v))
      × IsQuiet (led_thread_step (buzzer_thread_step v))
unfolding alarm_off_command led_thread_step buzzer_thread_step stop_melody_thread
    stop_segment_thread led_off buzzer_off duty tone
settle-IsQuiet env w v = (
  ground (arith, ==ℤ_refl w.board.led_pin, ==ℤ_refl w.board.buzzer_pin),
  ground (arith, ==ℤ_refl w.board.led_pin, ==ℤ_refl w.board.buzzer_pin),
)

-- In every valid state, the command to switch the alarm off succeeds, and once the LED and the
-- buzzer thread have taken their next step, in either order, the alarm is inactive, the LED is
-- dark, the buzzer is silent, and no melody and no countdown is left.
pub alarm_off-IsQuiet :
    (env : Env) (value : ℕ) (w : World)
    → IsValid w
    → let r = respond env (alarm_off_request value) w in
      (r.0 ≡ message msg_resp dev_system act_alarm_off resp_ok)
      × IsQuiet (buzzer_thread_step (led_thread_step r.1))
      × IsQuiet (led_thread_step (buzzer_thread_step r.1))
unfolding respond handle_command handle_system_command
alarm_off-IsQuiet env value w v = let (a, b) = settle-IsQuiet env w v in (refl, a, b)

-- The state that the alarm leaves behind `sleep(5)` begins: the buzzer is told to sound, and
-- `buzzer_state` says so unless a melody was playing.
pub sound_alarm_lem :
    (env : Env) (w : World)
    → IsValid w
    → let v = sound_alarm env w in
      (v.state.alarm_active ≡ 1)
      × (v.buzzer_cmd ≡ record { action = act_on; pending = 1 })
      × (v.melody.thread ≡ MelodyThread.absent)
      × (v.state.buzzer_state + melody_live w.melody.thread ≡ 1)
unfolding sound_alarm dispatch_led dispatch_buzzer stop_melody_thread broadcast_msg
sound_alarm_lem env w v = ground arith

abbrev pub buzzer_query : Message
buzzer_query = message msg_query dev_buzzer act_get_status 0

-- In a valid state in which a melody thread is there, an alarm that cuts it off is reported as a
-- silent buzzer: the alarm is active and the buzzer is told to sound, and a client that asks for
-- the state of the buzzer gets 0. The cleanup of the melody thread, for which
-- `stop_melody_thread` waits, overwrites the `buzzer_state` that was set before it.
pub alarm_over_melody :
    (env : Env) (w : World)
    → IsValid w
    → w.melody.thread ≢ MelodyThread.absent
    → let v = sound_alarm env w in
      (v.state.alarm_active ≡ 1)
      × (v.buzzer_cmd.action ≡ act_on)
      × ((respond env buzzer_query v).0 ≡ message msg_resp dev_buzzer act_get_status 0)
unfolding sound_alarm dispatch_led dispatch_buzzer stop_melody_thread broadcast_msg respond
    handle_query
alarm_over_melody env w v playing = ground arith

abbrev pub led_on_request : Message
led_on_request = message msg_cmd dev_led act_on 0

-- The end of an alarm that a client has switched off already takes back what was commanded since:
-- when the sensor thread sleeps in an alarm, a client switches the alarm off, and then the LED on,
-- both succeed; when the thread wakes, it switches the LED off, although no alarm is active.
pub stale_auto_off :
    (env : Env) (w : World)
    → w.sensor ≡ alarming
    → let w₁ = (respond env (alarm_off_request 0) w).1 in
      let w₂ = (respond env led_on_request w₁).1 in
      let v = sensor_thread_step env w₂ in
      (w₂.state.alarm_active ≡ 0)
      × (w₂.state.led_state ≡ 1)
      × (v.state.led_state ≡ 0)
      × (v.led_cmd ≡ record { action = act_off; value = 0; pending = 1 })
unfolding respond handle_command handle_system_command alarm_off_command handle_led_command
    sensor_thread_step stop_melody_thread stop_segment_thread dispatch_led dispatch_buzzer
stale_auto_off env w e = ground arith

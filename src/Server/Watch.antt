-- ===== src/Server/Watch.antt =====
-- The sensor thread of server/handler.c.
use linux_veda_4sensor_tcp_c.Prelude.{ℕ, ◌+◌, ℤ, pos, negsuc, ◌==◌, leb, if◌then◌else◌}
use linux_veda_4sensor_tcp_c.Protocol.{
  message, msg_event, dev_sensor, dev_led, evt_intrusion, evt_alarm_on, act_on, act_off,
  act_set_brightness, brightness_high,
}
use linux_veda_4sensor_tcp_c.Devices.Sensor.{sensor_read}
use linux_veda_4sensor_tcp_c.Server.State.{
  World, SensorThread, polling, alarming, Env, set_board, log_event, intrusion_detected, alarm_on,
  alarm_auto_off,
}
use linux_veda_4sensor_tcp_c.Server.Dispatch.{dispatch_led, dispatch_buzzer}
use linux_veda_4sensor_tcp_c.Server.Clients.{broadcast_msg}
use linux_veda_4sensor_tcp_c.Server.Melody.{stop_melody_thread}

abbrev pub light_threshold : ℕ
light_threshold = 175

abbrev pub set_sensor : SensorThread → World → World
set_sensor t w = record w { sensor = t }

-- The writes under the lock when the alarm is raised.
abbrev pub alarm_state : World → World
alarm_state w = record w {
  state = record (w.state) {
    alarm_active = 1;
    sensor_blocked = 1;
    led_state = 1;
    led_brightness = brightness_high;
    buzzer_state = 1;
  };
}

unfoldable pub sound_alarm : Env → World → World
sound_alarm env w =
    let w₁ = stop_melody_thread env (alarm_state w) in
    let w₂ = dispatch_buzzer act_on (dispatch_led act_set_brightness brightness_high w₁) in
    let w₃ = broadcast_msg env (message msg_event dev_sensor evt_intrusion 0) w₂ in
    let w₄ = broadcast_msg env (message msg_event dev_led evt_alarm_on 0) w₃ in
    set_sensor alarming (log_event alarm_on (log_event intrusion_detected w₄))

-- From the test of `already` to the `sleep(5)`, or past the block.
unfoldable pub raise_alarm : Env → World → World
unfolding sound_alarm
raise_alarm env w =
    if w.state.alarm_active == 0 then sound_alarm env w else set_sensor (polling 0) w

-- From the `sleep(5)` to the next reading.
unfoldable pub end_alarm : World → World
end_alarm w =
    let w₁ = dispatch_buzzer act_off (dispatch_led act_off 0 w) in
    set_sensor (polling 0) (
      log_event alarm_auto_off (record w₁ {
        state = record (w₁.state) {
          alarm_active = 0;
          led_state = 0;
          led_brightness = 0;
          buzzer_state = 0;
          sensor_blocked = 0;
        };
      }))

-- What follows a reading, with the local `consec`.
unfoldable pub judge : Env → ℕ → ℤ → World → World
unfolding raise_alarm
judge env consec (negsuc n) w = w
judge env consec (pos lux) w =
    if leb light_threshold lux
    then (if leb 3 (consec + 1) then raise_alarm env w else set_sensor (polling (consec + 1)) w)
    else set_sensor (polling 0) (record w { state = record (w.state) { sensor_blocked = 0 } })

-- A round of the loop: a reading and what follows it, or the end of the alarm.
abbrev pub sensor_thread_from : SensorThread → Env → World → World
sensor_thread_from (polling consec) env w =
    let (lux, b) = sensor_read env.transfers w.board in judge env consec lux (set_board b w)
sensor_thread_from alarming env w = end_alarm w

unfoldable pub sensor_thread_step : Env → World → World
unfolding judge end_alarm
sensor_thread_step env w = sensor_thread_from w.sensor env w

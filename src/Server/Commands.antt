-- ===== src/Server/Commands.antt =====
-- The requests of a client: handle_command, handle_query and the functions below them in
-- server/handler.c. Each returns the response and the new state.
use linux_veda_4sensor_tcp_c.Prelude.{
  ℕ, ◌%◌, ℤ, pos, negsuc, ◌==◌, ltb, if◌then◌else◌, not, ◌&&◌, ◌||◌,
}
use linux_veda_4sensor_tcp_c.Protocol.{
  Message, message, msg_cmd, msg_resp, msg_query, dev_system, dev_led, dev_buzzer, dev_sensor,
  dev_segment, act_on, act_off, act_set_brightness, act_set_number, act_get_status, act_alarm_off,
  act_play_melody, act_get_lux, brightness_low, brightness_high, resp_ok, resp_err,
}
use linux_veda_4sensor_tcp_c.Devices.Sensor.{sensor_read}
use linux_veda_4sensor_tcp_c.Server.State.{
  World, Env, set_board, set_buzzer_state, set_segment_value, log_event, melody_start,
  countdown_stopped, countdown_started, alarm_off,
}
use linux_veda_4sensor_tcp_c.Server.Dispatch.{dispatch_led, dispatch_buzzer}
use linux_veda_4sensor_tcp_c.Server.Melody.{stop_melody_thread, start_melody_thread}
use linux_veda_4sensor_tcp_c.Server.Countdown.{stop_segment_thread, start_segment_thread}

unfoldable pub error_response : Message → Message
error_response request = message msg_resp request.device request.action resp_err

-- The writes of the three commands to `led_state` and `led_brightness`.
abbrev pub set_led : ℕ → ℕ → World → World
set_led on brightness w = record w {
  state = record (w.state) { led_state = on; led_brightness = brightness };
}

unfoldable pub handle_led_command : Message → World → Message × World
unfolding dispatch_led error_response
handle_led_command c w =
    if c.action == act_on
    then (
      message msg_resp dev_led act_on resp_ok,
      dispatch_led act_on 0 (record w { state = record (w.state) { led_state = 1 } }),
    )
    else if c.action == act_off
    then (message msg_resp dev_led act_off resp_ok, dispatch_led act_off 0 (set_led 0 0 w))
    else if c.action == act_set_brightness
    then (if ltb c.value brightness_low || ltb brightness_high c.value
        then (error_response c, w)
        else (
          message msg_resp dev_led act_set_brightness resp_ok,
          dispatch_led act_set_brightness c.value (set_led 1 c.value w),
        ))
    else (error_response c, w)

unfoldable pub play_melody_command : Env → Message → World → Message × World
play_melody_command env c w =
    let (result, w₁) = start_melody_thread env w in
    if result == 0
    then (
      message msg_resp dev_buzzer act_play_melody resp_ok,
      log_event melody_start (set_buzzer_state 1 w₁),
    )
    else (error_response c, w₁)

unfoldable pub handle_buzzer_command : Env → Message → World → Message × World
unfolding dispatch_buzzer error_response play_melody_command
handle_buzzer_command env c w =
    if c.action == act_on
    then (
      message msg_resp dev_buzzer act_on resp_ok,
      dispatch_buzzer act_on (set_buzzer_state 1 (stop_melody_thread env w)),
    )
    else if c.action == act_off
    then (
      message msg_resp dev_buzzer act_off resp_ok,
      dispatch_buzzer act_off (set_buzzer_state 0 (stop_melody_thread env w)),
    )
    else if c.action == act_play_melody
    then play_melody_command env c w
    else (error_response c, w)

unfoldable pub set_number_command : Env → Message → World → Message × World
set_number_command env c w =
    let (result, w₁) = start_segment_thread env c.value w in
    if result == 0
    then (
      message msg_resp dev_segment act_set_number resp_ok,
      log_event (countdown_started c.value) (set_segment_value (pos c.value) w₁),
    )
    else (error_response c, w₁)

unfoldable pub handle_segment_command : Env → Message → World → Message × World
unfolding error_response set_number_command
handle_segment_command env c w =
    if c.action == act_off
    then (
      message msg_resp dev_segment act_off resp_ok,
      log_event countdown_stopped (stop_segment_thread w),
    )
    else if not (c.action == act_set_number) || ltb c.value 1 || ltb 9 c.value
    then (error_response c, w)
    else set_number_command env c w

unfoldable pub alarm_off_command : Env → World → World
unfolding dispatch_led dispatch_buzzer
alarm_off_command env w =
    let w₁ = stop_segment_thread (stop_melody_thread env w) in
    let w₂ = record w₁ {
      state = record (w₁.state) {
        alarm_active = 0;
        led_state = 0;
        led_brightness = 0;
        buzzer_state = 0;
      };
    } in
    log_event alarm_off (dispatch_buzzer act_off (dispatch_led act_off 0 w₂))

unfoldable pub handle_system_command : Env → Message → World → Message × World
unfolding error_response alarm_off_command
handle_system_command env c w =
    if c.action == act_alarm_off
    then (message msg_resp dev_system act_alarm_off resp_ok, alarm_off_command env w)
    else (error_response c, w)

unfoldable pub handle_command : Env → Message → World → Message × World
unfolding error_response
handle_command env c w =
    if c.device == dev_led
    then handle_led_command c w
    else if c.device == dev_buzzer
    then handle_buzzer_command env c w
    else if c.device == dev_segment
    then handle_segment_command env c w
    else if c.device == dev_system
    then handle_system_command env c w
    else (error_response c, w)

-- The reading of the light sensor, as a byte.
unfoldable pub lux_response : ℤ → Message
lux_response (negsuc n) = message msg_resp dev_sensor 0 resp_err
lux_response (pos lux) =
    if ltb 255 lux
    then message msg_resp dev_sensor 0 resp_err
    else message msg_resp dev_sensor act_get_lux (lux % 256)

unfoldable pub status_response : Message → World → Message
unfolding error_response
status_response q w =
    if q.device == dev_sensor
    then message msg_resp q.device act_get_status (w.state.sensor_blocked % 256)
    else if q.device == dev_led
    then message msg_resp q.device act_get_status (w.state.led_state % 256)
    else if q.device == dev_buzzer
    then message msg_resp q.device act_get_status (w.state.buzzer_state % 256)
    else error_response q

unfoldable pub handle_query : Env → Message → World → Message × World
unfolding error_response lux_response status_response
handle_query env q w =
    if (q.device == dev_sensor) && (q.action == act_get_lux)
    then (let (lux, b) = sensor_read env.transfers w.board in (lux_response lux, set_board b w))
    else if q.action == act_get_status
    then (status_response q w, w)
    else (error_response q, w)

-- The body of the loop of `handle_client`, without the send.
unfoldable pub respond : Env → Message → World → Message × World
unfolding error_response
respond env r w =
    if r.type == msg_cmd
    then handle_command env r w
    else if r.type == msg_query
    then handle_query env r w
    else (error_response r, w)

-- ===== src/Client/Display.antt =====
-- What recv_thread_fn of client/main.c prints for a message.
use linux_veda_4sensor_tcp_c.Prelude.{ℕ, ◌==◌, if◌then◌else◌, Option, none, some}
use linux_veda_4sensor_tcp_c.Protocol.{
  Message, msg_event, msg_resp, dev_led, dev_buzzer, dev_sensor, dev_segment, dev_system,
  act_get_status, act_get_lux, evt_intrusion, evt_alarm_on, evt_countdown, evt_alarm_triggered,
  resp_ok, resp_busy,
}

-- `dev_str`, `state_str` and `res`.
pub data DeviceName : Type 0 where
  led buzzer sensor segment system unknown : DeviceName

pub data StateName : Type 0 where
  blocked normal on off : StateName

pub data ResultName : Type 0 where
  ok busy err : ResultName

pub data Line : Type 0 where
  intrusion alarm_activated countdown_done : Line
  countdown : ℕ → Line
  other_event : (device action value : ℕ) → Line
  brightness : ℕ → Line
  state : DeviceName → StateName → Line
  result : DeviceName → ResultName → Line

unfoldable pub dev_str : ℕ → DeviceName
dev_str d =
    if d == dev_led
    then led
    else if d == dev_buzzer
    then buzzer
    else if d == dev_sensor
    then sensor
    else if d == dev_segment
    then segment
    else if d == dev_system
    then system
    else unknown

unfoldable pub event_line : Message → Line
event_line m =
    if m.action == evt_intrusion
    then intrusion
    else if m.action == evt_alarm_on
    then alarm_activated
    else if m.action == evt_countdown
    then countdown m.value
    else if m.action == evt_alarm_triggered
    then countdown_done
    else other_event m.device m.action m.value

unfoldable pub state_str : Message → StateName
state_str m =
    if m.device == dev_sensor
    then (if m.value == 0 then normal else blocked)
    else (if m.value == 0 then off else on)

unfoldable pub response_line : Message → Line
unfolding dev_str state_str
response_line m =
    if m.action == act_get_lux
    then brightness m.value
    else if m.action == act_get_status
    then state (dev_str m.device) (state_str m)
    else result (dev_str m.device)
        (if m.value == resp_ok then ok else if m.value == resp_busy then busy else err)

-- `none` if nothing is printed.
unfoldable pub display : Message → Option Line
unfolding event_line response_line
display m =
    if m.type == msg_event
    then some (event_line m)
    else if m.type == msg_resp
    then some (response_line m)
    else none

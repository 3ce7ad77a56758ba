-- ===== src/Protocol.antt =====
-- include/protocol.h: the message of the wire protocol and its codes.
-- A field is a `uint8_t`, kept as a number below 256 (`IsMessage`).
pub mod Codec
use linux_veda_4sensor_tcp_c.Prelude.{ℕ, ◌<◌}

pub record Message : Type 0 where
  pub type : ℕ
  pub device : ℕ
  pub action : ℕ
  pub value : ℕ

pub record IsMessage (m : Message) : Type 0 where
  pub type_byte : m.type < 256
  pub device_byte : m.device < 256
  pub action_byte : m.action < 256
  pub value_byte : m.value < 256

abbrev pub message : ℕ → ℕ → ℕ → ℕ → Message
message t d a v = record { type = t; device = d; action = a; value = v }

-- Message types.
abbrev pub msg_cmd : ℕ
msg_cmd = 1

abbrev pub msg_event : ℕ
msg_event = 2

abbrev pub msg_resp : ℕ
msg_resp = 3

abbrev pub msg_query : ℕ
msg_query = 4

-- Devices.
abbrev pub dev_system : ℕ
dev_system = 0

abbrev pub dev_led : ℕ
dev_led = 1

abbrev pub dev_buzzer : ℕ
dev_buzzer = 2

abbrev pub dev_sensor : ℕ
dev_sensor = 3

abbrev pub dev_segment : ℕ
dev_segment = 4

-- Actions.
abbrev pub act_on : ℕ
act_on = 1

abbrev pub act_off : ℕ
act_off = 2

abbrev pub act_set_brightness : ℕ
act_set_brightness = 3

abbrev pub act_set_number : ℕ
act_set_number = 4

abbrev pub act_get_status : ℕ
act_get_status = 5

abbrev pub act_alarm_off : ℕ
act_alarm_off = 6

abbrev pub act_play_melody : ℕ
act_play_melody = 7

abbrev pub act_get_lux : ℕ
act_get_lux = 8

-- Values of `act_set_brightness`.
abbrev pub brightness_low : ℕ
brightness_low = 1

abbrev pub brightness_mid : ℕ
brightness_mid = 2

abbrev pub brightness_high : ℕ
brightness_high = 3

-- Values of a response.
abbrev pub resp_ok : ℕ
resp_ok = 0

abbrev pub resp_err : ℕ
resp_err = 1

abbrev pub resp_busy : ℕ
resp_busy = 2

-- Events.
abbrev pub evt_intrusion : ℕ
evt_intrusion = 1

abbrev pub evt_alarm_on : ℕ
evt_alarm_on = 2

abbrev pub evt_countdown : ℕ
evt_countdown = 3

abbrev pub evt_alarm_triggered : ℕ
evt_alarm_triggered = 4

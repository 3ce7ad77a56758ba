-- ===== src/Server/State.antt =====
-- server/server.h and the global and local variables of server/main.c and server/handler.c.
-- An `int` that only ever holds small non-negative numbers is a number; `segment_value`, the file
-- descriptors and `n_clients` may be negative.
use linux_veda_4sensor_tcp_c.Prelude.{ℕ, ℤ, List, ◌∷◌}
use linux_veda_4sensor_tcp_c.Protocol.{Message}
use linux_veda_4sensor_tcp_c.Devices.Board.{Board}
use linux_veda_4sensor_tcp_c.Devices.Buzzer.{Note}
use linux_veda_4sensor_tcp_c.Devices.Sensor.{Transfers}

pub record SystemState : Type 0 where
  pub alarm_active : ℕ
  pub led_state : ℕ
  pub led_brightness : ℕ
  pub buzzer_state : ℕ
  pub sensor_blocked : ℕ
  pub segment_value : ℤ
  pub client_fds : List ℤ  -- int client_fds[MAX_CLIENTS]
  pub n_clients : ℤ

pub record LedCmd : Type 0 where
  pub action : ℕ
  pub value : ℕ
  pub pending : ℕ

pub record BuzzerCmd : Type 0 where
  pub action : ℕ
  pub pending : ℕ

-- Where a melody thread stands: not there, before the call of `buzzer_play_melody`, or in its loop
-- with these notes to come.
pub data MelodyThread : Type 0 where
  absent started : MelodyThread
  playing : List Note → MelodyThread

-- g_melody_running and g_melody_joinable, with the thread that g_melody_tid names.
pub record MelodyControl : Type 0 where
  pub running : ℕ
  pub joinable : ℕ
  pub thread : MelodyThread

-- Where a countdown thread stands: not there, before the round of its loop for a number, in the
-- `sleep(1)` after the round for 0, or in the `sleep(2)` behind it.
pub data SegmentThread : Type 0 where
  absent : SegmentThread
  counting : (count : ℕ) → SegmentThread
  ringing dimmed : SegmentThread

-- g_segment_running and g_segment_joinable, with the thread that g_segment_tid names.
pub record SegmentControl : Type 0 where
  pub running : ℕ
  pub joinable : ℕ
  pub thread : SegmentThread

-- The sensor thread: before a reading, with its local `consec`, or in the `sleep(5)` of an alarm.
pub data SensorThread : Type 0 where
  polling : (consec : ℕ) → SensorThread
  alarming : SensorThread

-- The messages given to `log_event`.
pub data LogEntry : Type 0 where
  intrusion_detected alarm_on alarm_auto_off countdown_reached_0 buzzer_auto_off melody_start :
      LogEntry
  countdown_stopped alarm_off server_started hardware_failed : LogEntry
  countdown_started : ℕ → LogEntry

pub record World : Type 0 where
  pub state : SystemState  -- g_state
  pub led_cmd : LedCmd  -- g_led_cmd
  pub buzzer_cmd : BuzzerCmd  -- g_buzzer_cmd
  pub melody : MelodyControl
  pub segment : SegmentControl
  pub sensor : SensorThread
  pub board : Board  -- the device libraries
  pub events : List (ℤ × Message)  -- broadcast to a copy of a descriptor, newest first
  pub log : List LogEntry  -- newest first
  pub closed : List ℤ  -- client descriptors closed, newest first
  pub handlers : List ℤ  -- client descriptors with a thread in `handle_client`

-- How a melody thread that was told to stop ends: cancelled at a `usleep`, or by its own test of
-- the stop flag.
pub data MelodyEnd : Type 0 where
  cancelled returned : MelodyEnd

-- What the operating system and the sensor answer to the calls of one step.
pub record Env : Type 0 where
  pub create_melody : ℕ  -- the result of pthread_create
  pub create_segment : ℕ
  pub melody_end : MelodyEnd
  pub dup : ℤ → ℤ
  pub transfers : Transfers

abbrev pub set_state : SystemState → World → World
set_state s w = record w { state = s }

abbrev pub set_board : Board → World → World
set_board b w = record w { board = b }

abbrev pub log_event : LogEntry → World → World
log_event e w = record w { log = e ∷ w.log }

abbrev pub set_buzzer_state : ℕ → World → World
set_buzzer_state n w = record w { state = record (w.state) { buzzer_state = n } }

abbrev pub set_segment_value : ℤ → World → World
set_segment_value n w = record w { state = record (w.state) { segment_value = n } }

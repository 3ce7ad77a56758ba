-- ===== src/Server/Locks/Programs.antt =====
-- What the functions of server/handler.c and server/main.c, and `sensor_read` of lib/cds.c, lock,
-- unlock and join, in the order of the code. `log_event` and the other device libraries lock nothing.
use linux_veda_4sensor_tcp_c.Prelude.{
  ℕ, zero, suc, ltb, leb, ◌==◌, if◌then◌else◌, Bool, true, false, not, ◌||◌, ◌&&◌, List, [], ◌∷◌,
  ◌++◌, ℤ, pos, negsuc, is_neg,
}
use linux_veda_4sensor_tcp_c.Protocol.{
  Message, msg_cmd, msg_query, dev_led, dev_buzzer, dev_sensor, dev_segment, dev_system, act_on,
  act_off, act_set_brightness, act_set_number, act_get_status, act_alarm_off, act_play_melody,
  act_get_lux, brightness_low, brightness_high,
}
use linux_veda_4sensor_tcp_c.Server.Watch.{light_threshold}

pub data Mutex : Type 0 where
  segment_control : Mutex  -- g_segment_control_lock
  melody_control : Mutex  -- g_melody_control_lock
  state : Mutex  -- g_state.lock
  led : Mutex  -- g_led_mtx
  buzzer : Mutex  -- g_buzzer_mtx
  sensor : Mutex  -- g_sensor_lock

-- The threads that `pthread_join` waits for: g_melody_tid and g_segment_tid.
pub data Worker : Type 0 where
  melody_tid segment_tid : Worker

pub data Op : Type 0 where
  lock : Mutex → Op
  unlock : Mutex → Op
  join : Worker → Op

-- What a call finds: whether a thread is joinable, whether `pthread_create` gives 0, and the light
-- sensor's value.
pub record Found : Type 0 where
  pub melody_joinable : Bool
  pub segment_joinable : Bool
  pub created : Bool
  pub already : Bool  -- g_state.alarm_active
  pub lux : ℤ

abbrev pub brief : Mutex → List Op
brief m = lock m ∷ unlock m ∷ []

abbrev pub join_if : Bool → Worker → List Op
join_if true w = join w ∷ []
join_if false w = []

unfoldable pub stop_melody : Found → List Op
stop_melody f =
    lock melody_control ∷ (join_if f.melody_joinable melody_tid ++ (unlock melody_control ∷ []))

unfoldable pub start_melody : Found → List Op
start_melody f =
    lock melody_control ∷ (join_if f.melody_joinable melody_tid ++ (unlock melody_control ∷ []))

unfoldable pub stop_segment : Found → List Op
stop_segment f =
    lock segment_control ∷ (join_if f.segment_joinable segment_tid ++ (unlock segment_control ∷ []))

unfoldable pub start_segment : Found → List Op
start_segment f =
    lock segment_control ∷ (join_if f.segment_joinable segment_tid ++ (unlock segment_control ∷ []))

-- `broadcast_msg` sends behind the lock.
abbrev pub broadcast : List Op
broadcast = brief state

unfoldable pub led_command : Message → List Op
led_command c =
    if c.action == act_on
    then brief state ++ brief led
    else if c.action == act_off
    then brief state ++ brief led
    else if c.action == act_set_brightness
    then if ltb c.value brightness_low || ltb brightness_high c.value
      then []
      else brief state ++ brief led
    else []

unfoldable pub buzzer_command : Found → Message → List Op
unfolding stop_melody start_melody
buzzer_command f c =
    if c.action == act_on
    then stop_melody f ++ (brief state ++ brief buzzer)
    else if c.action == act_off
    then stop_melody f ++ (brief state ++ brief buzzer)
    else if c.action == act_play_melody
    then start_melody f ++ (if f.created then brief state else [])
    else []

unfoldable pub segment_command : Found → Message → List Op
unfolding stop_segment start_segment
segment_command f c =
    if c.action == act_off
    then stop_segment f
    else if not (c.action == act_set_number) || ltb c.value 1 || ltb 9 c.value
    then []
    else start_segment f ++ (if f.created then brief state else [])

unfoldable pub system_command : Found → Message → List Op
unfolding stop_melody stop_segment
system_command f c =
    if c.action == act_alarm_off
    then stop_melody f ++ (stop_segment f ++ (brief state ++ (brief led ++ brief buzzer)))
    else []

unfoldable pub command : Found → Message → List Op
unfolding led_command buzzer_command segment_command system_command
command f c =
    if c.device == dev_led
    then led_command c
    else if c.device == dev_buzzer
    then buzzer_command f c
    else if c.device == dev_segment
    then segment_command f c
    else if c.device == dev_system
    then system_command f c
    else []

unfoldable pub query : Message → List Op
query q =
    if (q.device == dev_sensor) && (q.action == act_get_lux)
    then brief sensor
    else if q.action == act_get_status
    then brief state
    else []

-- One round of the loop of `handle_client`.
unfoldable pub request : Found → Message → List Op
unfolding command query
request f r = if r.type == msg_cmd then command f r else if r.type == msg_query then query r else []

-- The alarm of `sensor_thread_fn`.
unfoldable pub alarm : Found → List Op
unfolding stop_melody
alarm f =
    stop_melody f
    ++ (brief led
        ++ (brief buzzer
            ++ (broadcast ++ (broadcast ++ (brief led ++ (brief buzzer ++ brief state))))))

-- One round of `sensor_thread_fn`, with `consec` counted before it.
abbrev pub dark : ℤ → Bool
dark (pos n) = leb light_threshold n
dark (negsuc n) = false

-- One round of `sensor_thread_fn`, with `consec` counted before it.
unfoldable pub watch : Found → ℕ → List Op
unfolding alarm
watch f consec =
    brief sensor
    ++ (if is_neg f.lux
        then []
        else if dark f.lux
        then if leb 3 (suc consec) then brief state ++ (if f.already then [] else alarm f) else []
        else brief state)

unfoldable pub countdown : Found → ℕ → List Op
unfolding stop_melody
countdown f zero =
    brief state
    ++ (broadcast
        ++ (stop_melody f
            ++ (brief state
                ++ (brief buzzer
                    ++ (broadcast ++ (brief state ++ (brief buzzer ++ brief state)))))))
countdown f (suc count) = brief state ++ (broadcast ++ countdown f count)

unfoldable pub countdown_cleanup : (buzzer_owned : Bool) → List Op
countdown_cleanup buzzer_owned = (if buzzer_owned then brief buzzer else []) ++ brief state

-- One round of the loop of `main`: whether the connection is configured, has found a slot in the
-- table, and has got its thread.
unfoldable pub accepted : (configured added created : Bool) → List Op
accepted configured added created =
    if configured
    then brief state ++ (if added then if created then [] else brief state else [])
    else []

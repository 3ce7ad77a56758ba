-- ===== src/Server/Tests/Examples.antt =====
-- The theorems about server/ at the server of Scenes.
use mathlib.Core.List.{reverse}
use linux_veda_4sensor_tcp_c.Server.ClientLaws.{registered}
use linux_veda_4sensor_tcp_c.Server.BroadcastLaws.{broadcast_msg_lem}
use linux_veda_4sensor_tcp_c.Server.Clients.{broadcast_msg}
use linux_veda_4sensor_tcp_c.Server.State.{Env}
use linux_veda_4sensor_tcp_c.Server.Countdown.{stop_segment_locked}
use linux_veda_4sensor_tcp_c.Prelude.{
  if◌then◌else◌, ◌==ℤ◌, ◌+ℤ◌, ◌++◌, pos, negsuc, map, ◌||◌, ◌≡◌, ◌≢◌, refl, some, [], ◌∷◌, times,
  arith,
}
use linux_veda_4sensor_tcp_c.Protocol.{
  msg_event, dev_segment, evt_countdown, message, msg_resp, dev_system, dev_buzzer, act_alarm_off,
  act_get_status, act_on, act_off, resp_ok,
}
use linux_veda_4sensor_tcp_c.Devices.Led.{led_init}
use linux_veda_4sensor_tcp_c.Devices.Buzzer.{buzzer_init}
use linux_veda_4sensor_tcp_c.Devices.Sensor.{sensor_init, sensor_read}
use linux_veda_4sensor_tcp_c.Devices.Segment.{segment_init}
use linux_veda_4sensor_tcp_c.Server.State.{alarming, set_board, World, MelodyThread}
use linux_veda_4sensor_tcp_c.Server.Dispatch.{led_thread_step, buzzer_thread_step}
use linux_veda_4sensor_tcp_c.Server.Melody.{start_melody_thread}
use linux_veda_4sensor_tcp_c.Server.Countdown.{segment_thread_step, start_segment_thread}
use linux_veda_4sensor_tcp_c.Server.Watch.{sound_alarm, sensor_thread_step}
use linux_veda_4sensor_tcp_c.Server.Commands.{handle_segment_command, respond}
use linux_veda_4sensor_tcp_c.Server.Accept.{
  init_devices, initialize_hardware, initial_board, initial_world,
}
use linux_veda_4sensor_tcp_c.Server.System.{run}
use linux_veda_4sensor_tcp_c.Server.Validity.{IsValid, run-IsValid, run_from-IsValid}
use linux_veda_4sensor_tcp_c.Server.LedLaws.{LedAgrees, run-LedAgrees}
use linux_veda_4sensor_tcp_c.Server.DigitLaws.{Shows, run-Shows}
use linux_veda_4sensor_tcp_c.Server.Serving.{Serves, opened, run-Serves}
use linux_veda_4sensor_tcp_c.Server.Reply.{Answered, documented, is_parameterless, respond-Answered}
use linux_veda_4sensor_tcp_c.Server.AlarmLaws.{
  IsQuiet, alarm_off_request, buzzer_query, alarm_off-IsQuiet, alarm_over_melody, led_on_request,
  stale_auto_off,
}
use linux_veda_4sensor_tcp_c.Server.WatchLaws.{
  Vigilant, IsCalm, watch, seen, dark_run, watch-Vigilant,
}
use linux_veda_4sensor_tcp_c.Server.CountdownLaws.{
  IsCut, stop_segment-IsCut, Rings, deliver, countdown_messages, IsOver, countdown_lem,
}
use linux_veda_4sensor_tcp_c.Server.Registry.{of_list, room_run}
use linux_veda_4sensor_tcp_c.Server.RegistryLaws.{room, run-room}
use linux_veda_4sensor_tcp_c.Client.EventLaws.{Announces, run-Announces}
use linux_veda_4sensor_tcp_c.Server.Tests.Scenes.{
  all_well, dark, day, countdown_request, brightness_request,
}

-- The server as its hardware comes up.
abbrev booted : World
booted = set_board (init_devices all_well initial_board).1 initial_world

booted_lem : initialize_hardware all_well initial_world ≡ some booted
unfolding initialize_hardware init_devices led_init buzzer_init sensor_init segment_init
booted_lem = refl

-- The world behind `day`: the alarm has cut the melody off, and a countdown runs.
abbrev evening : World
evening = run day booted

evening-IsValid : IsValid evening
evening-IsValid = run_from-IsValid day booted (ground arith)

run-IsValid_example : IsValid (run day initial_world)
run-IsValid_example = run-IsValid day

run-LedAgrees_example : LedAgrees (run day booted)
run-LedAgrees_example = run-LedAgrees all_well booted day booted_lem

run-Shows_example : Shows (run day booted)
run-Shows_example = run-Shows all_well booted day booted_lem

run-Serves_example : Serves (opened day []) (run day initial_world)
run-Serves_example = run-Serves day

-- Brightness 4 is refused in the middle of it all.
respond-Answered_example :
    Answered
      (documented (brightness_request 4) || is_parameterless (brightness_request 4))
      (brightness_request 4)
      evening
      (respond dark (brightness_request 4) evening)
respond-Answered_example =
    respond-Answered dark (brightness_request 4) evening refl (omega arith) refl refl

alarm_off-IsQuiet_example :
    let r = respond dark (alarm_off_request 0) evening in
    (r.0 ≡ message msg_resp dev_system act_alarm_off resp_ok)
    × IsQuiet (buzzer_thread_step (led_thread_step r.1))
    × IsQuiet (led_thread_step (buzzer_thread_step r.1))
alarm_off-IsQuiet_example = alarm_off-IsQuiet dark 0 evening evening-IsValid

two_dark : IsCalm (seen (dark ∷ dark ∷ []) booted)
unfolding sensor_thread_step sensor_read init_devices led_init buzzer_init sensor_init segment_init
two_dark = (omega arith, (omega arith, tt))

-- Two dark readings and a third.
watch-Vigilant_example :
    Vigilant
      (dark_run (seen (dark ∷ dark ∷ dark ∷ []) booted))
      (watch (dark ∷ dark ∷ dark ∷ []) booted)
watch-Vigilant_example = watch-Vigilant dark (dark ∷ dark ∷ []) booted refl refl two_dark

-- The melody that has just been started, and the countdown from 3.
abbrev melody_world : World
melody_world = (start_melody_thread dark booted).1

melody_world-IsValid : IsValid melody_world
unfolding start_melody_thread
melody_world-IsValid = ground arith

melody_world_plays : melody_world.melody.thread ≢ MelodyThread.absent
unfolding start_melody_thread
melody_world_plays e = cc

abbrev countdown_world : World
countdown_world = (handle_segment_command dark (countdown_request 3) booted).1

countdown_world-IsValid : IsValid countdown_world
unfolding handle_segment_command start_segment_thread
countdown_world-IsValid = ground arith

-- The same with two clients.
abbrev watched_world : World
watched_world = record countdown_world {
  state = record (countdown_world.state) { client_fds = negsuc 0 ∷ pos 5 ∷ negsuc 0 ∷ pos 6 ∷ [] };
}

countdown_lem_example :
    let rung = times 4 (segment_thread_step dark) watched_world in
    Rings
      (deliver (countdown_messages 3) (map (dark.dup) (pos 5 ∷ pos 6 ∷ [])) watched_world.events)
      watched_world
      rung
    × IsOver rung (times 2 (segment_thread_step dark) rung)
unfolding handle_segment_command start_segment_thread
countdown_lem_example = countdown_lem dark 3 watched_world refl (omega arith) (refl, (refl, tt))

stop_segment-IsCut_example : IsCut countdown_world (stop_segment_locked countdown_world)
unfolding handle_segment_command start_segment_thread init_devices led_init buzzer_init sensor_init
    segment_init
stop_segment-IsCut_example = stop_segment-IsCut countdown_world countdown_world-IsValid refl refl

-- The descriptor 6 cannot be copied.
abbrev short_of_fds : Env
short_of_fds = record dark { dup = λ fd. if fd ==ℤ pos 6 then negsuc 0 else fd +ℤ pos 100 }

broadcast_msg_lem_example :
    let m = message msg_event dev_segment evt_countdown 3 in
    (broadcast_msg short_of_fds m watched_world).events
    ≡ reverse (map (λ c. (c, m)) (registered (map short_of_fds.dup (pos 5 ∷ pos 6 ∷ []))))
      ++ watched_world.events
broadcast_msg_lem_example =
    broadcast_msg_lem short_of_fds (message msg_event dev_segment evt_countdown 3) watched_world

alarm_over_melody_example :
    let v = sound_alarm dark melody_world in
    (v.state.alarm_active ≡ 1)
    × (v.buzzer_cmd.action ≡ act_on)
    × ((respond dark buzzer_query v).0 ≡ message msg_resp dev_buzzer act_get_status 0)
alarm_over_melody_example =
    alarm_over_melody dark melody_world melody_world-IsValid melody_world_plays

-- A world in which the sensor thread sleeps in an alarm.
abbrev alarm_world : World
alarm_world = sound_alarm dark melody_world

alarm_world_alarms : alarm_world.sensor ≡ alarming
unfolding sound_alarm
alarm_world_alarms = refl

stale_auto_off_example :
    let w₁ = (respond dark (alarm_off_request 0) alarm_world).1 in
    let w₂ = (respond dark led_on_request w₁).1 in
    let v = sensor_thread_step dark w₂ in
    (w₂.state.alarm_active ≡ 0)
    × (w₂.state.led_state ≡ 1)
    × (v.state.led_state ≡ 0)
    × (v.led_cmd ≡ record { action = act_off; value = 0; pending = 1 })
stale_auto_off_example = stale_auto_off dark alarm_world alarm_world_alarms

run-room_example : room (run day initial_world) ≡ room_run day (of_list [])
run-room_example = run-room day

run-Announces_example : Announces (run day initial_world)
run-Announces_example = run-Announces day

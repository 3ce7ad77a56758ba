-- ===== src/Client/EventLaws.antt =====
-- The events of server/handler.c, as client/main.c prints them.
mod Quiet
use Quiet.{
  stop_melody-events, respond-events, melody_thread-events, led_thread-events, buzzer_thread-events,
  accept-events, end_client-events,
}
use linux_veda_4sensor_tcp_c.Prelude.{
  ℕ, zero, suc, ◌+◌, ◌==◌, leb, pos, negsuc, ◌≤◌, ◌<◌, ◌≡◌, refl, sym, subst, ◌%◌, inl, inr,
  Bool-cases, ℤ, Option, none, some, List, [], ◌∷◌, All, if◌then◌else◌, arith,
}
use linux_veda_4sensor_tcp_c.Protocol.{
  Message, IsMessage, message, msg_event, dev_led, dev_buzzer, dev_sensor, dev_segment,
  evt_intrusion, evt_alarm_on, evt_countdown, evt_alarm_triggered, act_on, act_set_brightness,
  brightness_high,
}
use linux_veda_4sensor_tcp_c.Devices.Sensor.{sensor_read}
use linux_veda_4sensor_tcp_c.Server.State.{
  World, SegmentThread, SensorThread, polling, alarming, Env, set_board, set_buzzer_state,
}
use linux_veda_4sensor_tcp_c.Server.Clients.{client_copies, send_to, broadcast_msg}
use linux_veda_4sensor_tcp_c.Server.Dispatch.{
  led_thread_step, buzzer_thread_step, dispatch_led, dispatch_buzzer,
}
use linux_veda_4sensor_tcp_c.Server.Melody.{
  stop_melody_thread, start_melody_thread, melody_thread_step,
}
use linux_veda_4sensor_tcp_c.Server.Countdown.{
  stop_segment_thread, start_segment_thread, countdown_round, show, segment_thread_from,
  segment_thread_step,
}
use linux_veda_4sensor_tcp_c.Server.Watch.{
  sound_alarm, raise_alarm, judge, end_alarm, light_threshold, alarm_state, sensor_thread_from,
  sensor_thread_step,
}
use linux_veda_4sensor_tcp_c.Server.Commands.{
  handle_led_command, handle_buzzer_command, handle_segment_command, handle_system_command,
  handle_command, handle_query, respond,
}
use linux_veda_4sensor_tcp_c.Server.Accept.{
  Connection, accept_step, admit_client, end_client, initial_world,
}
use linux_veda_4sensor_tcp_c.Server.System.{
  Action, led, buzzer, melody, segment, sensor, accept, request, leave, has_handler, step, run,
}
use linux_veda_4sensor_tcp_c.Server.Validity.{Counts, IsValid, step-IsValid, run-IsValid}
use linux_veda_4sensor_tcp_c.Client.Display.{
  Line, intrusion, alarm_activated, countdown_done, countdown, display,
}

-- The four lines that the client has a text for.
abbrev pub IsKnown : Option Line → Type 0
IsKnown (some intrusion) = Unit
IsKnown (some alarm_activated) = Unit
IsKnown (some countdown_done) = Unit
IsKnown (some (countdown n)) = n ≤ 9
IsKnown _ = ⊥

-- An event of four bytes with such a line.
abbrev pub IsEvent : ℤ × Message → Type 0
IsEvent (c, m) = IsMessage m × IsKnown (display m)

abbrev pub Announces : World → Type 0
Announces w = All IsEvent w.events

send_to-All :
    (m : Message) (cs : List ℤ) (sends : List (ℤ × Message))
    → IsMessage m × IsKnown (display m)
    → All IsEvent sends
    → All IsEvent (send_to m cs sends)
unfolding send_to
send_to-All m [] sends k a = a
send_to-All m (c ∷ cs) sends k a = send_to-All m cs ((c, m) ∷ sends) k (k, a)

broadcast-Announces :
    (env : Env) (m : Message) (w : World)
    → IsMessage m × IsKnown (display m)
    → Announces w
    → Announces (broadcast_msg env m w)
unfolding broadcast_msg
broadcast-Announces env m w k a =
    send_to-All m (client_copies env.dup w.state.client_fds) w.events k a

-- The four messages that are broadcast.
countdown_event :
    (n : ℕ)
    → n ≤ 9
    → let m = message msg_event dev_segment evt_countdown (n % 256) in
      IsMessage m × IsKnown (display m)
unfolding display
countdown_event n small = ground arith

triggered_event :
    let m = message msg_event dev_buzzer evt_alarm_triggered 0 in IsMessage m × IsKnown (display m)
unfolding display
triggered_event = ground arith

intrusion_event :
    let m = message msg_event dev_sensor evt_intrusion 0 in IsMessage m × IsKnown (display m)
unfolding display
intrusion_event = ground arith

alarm_event : let m = message msg_event dev_led evt_alarm_on 0 in IsMessage m × IsKnown (display m)
unfolding display
alarm_event = ground arith

-- The world `v` has the events of `w`.
same-Announces : (w v : World) → v.events ≡ w.events → Announces w → Announces v
same-Announces w v e a = subst (All IsEvent) (sym e) a

countdown_round-Announces :
    (env : Env) (count : ℕ) (w : World)
    → count ≤ 9
    → Announces w
    → Announces (countdown_round env count w)
unfolding countdown_round dispatch_buzzer
countdown_round-Announces env (suc count) w small a =
    broadcast-Announces env _ (show (pos (suc count)) w) (countdown_event (suc count) small) a
countdown_round-Announces env zero w small a =
    let shown = show (pos 0) w in
    let told = broadcast-Announces env _ shown (countdown_event 0 small) a in
    let w₁ = broadcast_msg env (message msg_event dev_segment evt_countdown 0) shown in
    let w₂ = dispatch_buzzer act_on (set_buzzer_state 1 (stop_melody_thread env w₁)) in
    broadcast-Announces env _ w₂ triggered_event
      (same-Announces w₁ w₂ (stop_melody-events env w₁) told)

segment_thread-Announces :
    (env : Env) (w : World) → IsValid w → Announces w → Announces (segment_thread_step env w)
unfolding segment_thread_step dispatch_buzzer
segment_thread-Announces env w v a = go w.segment.thread v.counts
  where
    go :
        (t : SegmentThread)
        → Counts t w.state.segment_value
        → Announces (segment_thread_from t env w)
    go SegmentThread.absent c = a
    go (SegmentThread.counting n) c = countdown_round-Announces env n w c.1 a
    go SegmentThread.ringing c = a
    go SegmentThread.dimmed c = a

sound_alarm-Announces : (env : Env) (w : World) → Announces w → Announces (sound_alarm env w)
unfolding sound_alarm dispatch_led dispatch_buzzer
sound_alarm-Announces env w a =
    let w₁ = stop_melody_thread env (alarm_state w) in
    let w₂ = dispatch_buzzer act_on (dispatch_led act_set_brightness brightness_high w₁) in
    let w₃ = broadcast_msg env (message msg_event dev_sensor evt_intrusion 0) w₂ in
    broadcast-Announces env _ w₃ alarm_event (
      broadcast-Announces env _ w₂ intrusion_event
        (same-Announces w w₂ (stop_melody-events env (alarm_state w)) a))

raise_alarm-Announces : (env : Env) (w : World) → Announces w → Announces (raise_alarm env w)
unfolding raise_alarm
raise_alarm-Announces env w a = elim (Bool-cases (w.state.alarm_active == 0)) [
  | inl quiet ↦ rw quiet (sound_alarm-Announces env w a)
  | inr already ↦ rw already a
]

judge-Announces :
    (env : Env) (consec : ℕ) (lux : ℤ) (w : World)
    → Announces w
    → Announces (judge env consec lux w)
unfolding judge
judge-Announces env consec (negsuc n) w a = a
judge-Announces env consec (pos lux) w a = elim (Bool-cases (leb light_threshold lux)) [
  | inl dark ↦ rw dark (elim (Bool-cases (leb 3 (consec + 1))) [
    | inl third ↦ rw third (raise_alarm-Announces env w a)
    | inr early ↦ rw early a
  ])
  | inr light ↦ rw light a
]

sensor_thread-Announces :
    (env : Env) (w : World) → Announces w → Announces (sensor_thread_step env w)
unfolding sensor_thread_step end_alarm dispatch_led dispatch_buzzer
sensor_thread-Announces env w a = go w.sensor
  where
    go : (t : SensorThread) → Announces (sensor_thread_from t env w)
    go (polling consec) =
        let (lux, b) = sensor_read env.transfers w.board in
        judge-Announces env consec lux (set_board b w) a
    go alarming = a

step-Announces : (a : Action) (w : World) → IsValid w → Announces w → Announces (step a w)
unfolding step
step-Announces led w v a = same-Announces w (led_thread_step w) (led_thread-events w) a
step-Announces buzzer w v a = same-Announces w (buzzer_thread_step w) (buzzer_thread-events w) a
step-Announces melody w v a = same-Announces w (melody_thread_step w) (melody_thread-events w) a
step-Announces (segment env) w v a = segment_thread-Announces env w v a
step-Announces (sensor env) w v a = sensor_thread-Announces env w a
step-Announces (accept c) w v a = same-Announces w (accept_step c w) (accept-events c w) a
step-Announces (request env r) w v a =
    same-Announces w (respond env r w).1 (respond-events env r w) a
step-Announces (leave fd) w v a = elim (Bool-cases (has_handler fd w.handlers)) [
  | inl there ↦ rw there (same-Announces w (end_client fd w) (end_client-events fd w) a)
  | inr gone ↦ rw gone a
]

run_from-Announces :
    (acts : List Action) (w : World) → IsValid w → Announces w → Announces (run acts w)
unfolding run
run_from-Announces [] w v a = a
run_from-Announces (x ∷ acts) w v a =
    run_from-Announces acts (step x w) (step-IsValid x w v) (step-Announces x w v a)

-- Whatever the server is asked and however its threads take turns: each event that it broadcasts is
-- four bytes, and the client has a text for it, which is that of an intrusion, of the alarm, of a
-- countdown at a number up to 9, or of the countdown's end.
pub run-Announces : (acts : List Action) → Announces (run acts initial_world)
unfolding run
run-Announces acts = run_from-Announces acts initial_world (run-IsValid []) tt

-- ===== src/Server/Reply.antt =====
-- The responses of server/handler.c, against the commands that docs/API명세서.md lists.
use linux_veda_4sensor_tcp_c.Prelude.{
  ℕ, ◌≡◌, ◌⊎◌, ◌==◌, leb, Bool, true, false, ◌&&◌, ◌||◌, List, [], ◌∷◌, ◌<◌, subst, arith,
}
use linux_veda_4sensor_tcp_c.Protocol.{
  Message, message, msg_cmd, msg_resp, dev_system, dev_led, dev_buzzer, dev_sensor, dev_segment,
  act_on, act_off, act_set_brightness, act_set_number, act_alarm_off, act_play_melody, resp_ok,
  resp_err,
}
use linux_veda_4sensor_tcp_c.Server.State.{World, Env}
use linux_veda_4sensor_tcp_c.Server.Melody.{start_melody_thread}
use linux_veda_4sensor_tcp_c.Server.Countdown.{start_segment_thread}
use linux_veda_4sensor_tcp_c.Server.Commands.{
  handle_led_command, handle_buzzer_command, handle_segment_command, handle_system_command,
  handle_command, handle_query, respond,
}

-- A command, and the range of its value.
record Row : Type 0 where
  device : ℕ
  action : ℕ
  low : ℕ
  high : ℕ

abbrev row : ℕ → ℕ → ℕ → ℕ → Row
row d a l h = record { device = d; action = a; low = l; high = h }

abbrev matches : Row → Message → Bool
matches r m =
    r.device == m.device && r.action == m.action && leb r.low m.value && leb m.value r.high

abbrev some_row : List Row → Message → Bool
some_row [] m = false
some_row (r ∷ rs) m = matches r m || some_row rs m

-- The commands of sections 1 to 10 of the document that have a parameter, with its range.
abbrev with_parameter : List Row
with_parameter = row dev_led act_set_brightness 1 3 ∷ row dev_segment act_set_number 1 9 ∷ []

-- The others, whose value is 0x00 in the document: the device and the action.
abbrev without_parameter : List (ℕ × ℕ)
without_parameter =
    (dev_led, act_on)
    ∷ (dev_led, act_off)
    ∷ (dev_buzzer, act_on)
    ∷ (dev_buzzer, act_off)
    ∷ (dev_buzzer, act_play_melody)
    ∷ (dev_segment, act_off)
    ∷ (dev_system, act_alarm_off)
    ∷ []

abbrev some_pair : List (ℕ × ℕ) → Message → Bool
some_pair [] m = false
some_pair ((d, a) ∷ ps) m = (d == m.device && a == m.action) || some_pair ps m

-- A command that takes no parameter, whatever its value.
unfoldable pub is_parameterless : Message → Bool
is_parameterless m = some_pair without_parameter m

-- A command that the document lists, to the value.
unfoldable pub documented : Message → Bool
unfolding is_parameterless
documented m = some_row with_parameter m || (is_parameterless m && m.value == 0)

-- The commands that are not refused, device by device.
abbrev led_rows : List Row
led_rows =
    row dev_led act_on 0 255 ∷ row dev_led act_off 0 255 ∷ row dev_led act_set_brightness 1 3 ∷ []

abbrev buzzer_rows : List Row
buzzer_rows =
    row dev_buzzer act_on 0 255
    ∷ row dev_buzzer act_off 0 255
    ∷ row dev_buzzer act_play_melody 0 255
    ∷ []

abbrev segment_rows : List Row
segment_rows = row dev_segment act_set_number 1 9 ∷ row dev_segment act_off 0 255 ∷ []

abbrev system_rows : List Row
system_rows = row dev_system act_alarm_off 0 255 ∷ []

unfoldable accepted : Message → Bool
accepted m =
    some_row led_rows m
    || some_row buzzer_rows m
    || some_row segment_rows m
    || some_row system_rows m

-- What is answered to a command that is known, or not.
abbrev pub answer : Bool → Message → Message
answer true m = message msg_resp m.device m.action resp_ok
answer false m = message msg_resp m.device m.action resp_err

-- The answer is that of the table, and an unknown command changes nothing.
pub record Answered (known : Bool) (m : Message) (w : World) (r : Message × World) : Type 0 where
  pub reply : r.0 ≡ answer known m
  pub kept : (known ≡ true) ⊎ (r.1 ≡ w)

led_command-Answered :
    (m : Message) (w : World)
    → m.device ≡ dev_led
    → m.value < 256
    → Answered (some_row led_rows m) m w (handle_led_command m w)
unfolding handle_led_command
led_command-Answered m w d v = ground arith

buzzer_command-Answered :
    (env : Env) (m : Message) (w : World)
    → m.device ≡ dev_buzzer
    → m.value < 256
    → env.create_melody ≡ 0
    → Answered (some_row buzzer_rows m) m w (handle_buzzer_command env m w)
unfolding handle_buzzer_command start_melody_thread
buzzer_command-Answered env m w d v ok = ground arith

segment_command-Answered :
    (env : Env) (m : Message) (w : World)
    → m.device ≡ dev_segment
    → m.value < 256
    → env.create_segment ≡ 0
    → Answered (some_row segment_rows m) m w (handle_segment_command env m w)
unfolding handle_segment_command start_segment_thread
segment_command-Answered env m w d v ok = ground arith

system_command-Answered :
    (env : Env) (m : Message) (w : World)
    → m.device ≡ dev_system
    → m.value < 256
    → Answered (some_row system_rows m) m w (handle_system_command env m w)
unfolding handle_system_command
system_command-Answered env m w d v = ground arith

-- Each device has its own rows.
accepted_led : (m : Message) → m.device ≡ dev_led → accepted m ≡ some_row led_rows m
unfolding accepted
accepted_led m d = ground arith

accepted_buzzer : (m : Message) → m.device ≡ dev_buzzer → accepted m ≡ some_row buzzer_rows m
unfolding accepted
accepted_buzzer m d = ground arith

accepted_segment : (m : Message) → m.device ≡ dev_segment → accepted m ≡ some_row segment_rows m
unfolding accepted
accepted_segment m d = ground arith

accepted_system : (m : Message) → m.device ≡ dev_system → accepted m ≡ some_row system_rows m
unfolding accepted
accepted_system m d = ground arith

accepted_none : (m : Message) → 4 < m.device → accepted m ≡ false
unfolding accepted
accepted_none m d = ground arith

accepted_sensor : (m : Message) → m.device ≡ dev_sensor → accepted m ≡ false
unfolding accepted
accepted_sensor m d = ground arith

-- They are those of the document, with any value where it has no parameter.
accepted_lem : (m : Message) → m.value < 256 → accepted m ≡ (documented m || is_parameterless m)
unfolding accepted documented is_parameterless
accepted_lem m v = ground arith

respond-accepted :
    (env : Env) (m : Message) (w : World)
    → m.type ≡ msg_cmd
    → m.value < 256
    → env.create_melody ≡ 0
    → env.create_segment ≡ 0
    → Answered (accepted m) m w (respond env m w)
unfolding respond handle_command
respond-accepted env m w t v melody segment = ground (
  arith,
  led_command-Answered m w,
  buzzer_command-Answered env m w,
  segment_command-Answered env m w,
  system_command-Answered env m w,
  accepted_led m,
  accepted_buzzer m,
  accepted_segment m,
  accepted_system m,
  accepted_sensor m,
  accepted_none m,
)

-- With threads to be had, a command whose value is a byte is answered by success exactly when the
-- document lists it, or lists its device and action as a command without a parameter, whose value
-- 0x00 the server does not look at; any other is answered by an error that echoes its device and
-- action, and changes nothing.
pub respond-Answered :
    (env : Env) (m : Message) (w : World)
    → m.type ≡ msg_cmd
    → m.value < 256
    → env.create_melody ≡ 0
    → env.create_segment ≡ 0
    → Answered (documented m || is_parameterless m) m w (respond env m w)
respond-Answered env m w t v melody segment =
    subst (λ known. Answered known m w (respond env m w)) (accepted_lem m v)
      (respond-accepted env m w t v melody segment)

-- Any response carries the response type, and the device and action of its request; only a failed
-- reading of the light sensor is answered with action 0.
pub respond-echo :
    (env : Env) (m : Message) (w : World)
    → let r = (respond env m w).0 in
      (r.type ≡ msg_resp)
      × (r.device ≡ m.device)
      × ((r.action ≡ m.action) ⊎ (r ≡ message msg_resp dev_sensor 0 resp_err))
unfolding respond handle_command handle_led_command handle_buzzer_command handle_segment_command
    handle_system_command handle_query
respond-echo env m w = ground arith

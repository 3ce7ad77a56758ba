-- ===== src/Gateway/Frames.antt =====
-- web/protocol.js. A value of JSON that is no integer is `other`; a command is a text, and the
-- arguments that `decodeFrames` and `encodeMessage` refuse for not being a buffer or an array do not
-- come up.
use linux_veda_4sensor_tcp_c.Prelude.{
  ℕ, ◌==◌, leb, if◌then◌else◌, Bool, true, false, ◌&&◌, not, ℤ, pos, Option, none, some, List, [],
  ◌∷◌, length,
}
use linux_veda_4sensor_tcp_c.Process.Text.{bytes_of}
use linux_veda_4sensor_tcp_c.Protocol.{
  Message, message, msg_cmd, msg_query, dev_led, dev_buzzer, dev_sensor, dev_segment, act_on,
  act_off, act_set_brightness, act_set_number, act_get_status, act_play_melody, act_get_lux,
}

pub data Value : Type 0 where
  integer : ℤ → Value
  other : Value

abbrev pub byte : ℕ → Value
byte n = integer (pos n)

-- A buffer, or what is thrown.
pub data Encoded : Type 0 where
  buffer : List ℕ → Encoded
  type_error range_error : Encoded

abbrev pub is_byte : Value → Bool
is_byte (integer (pos n)) = leb n 255
is_byte _ = false

abbrev pub every_byte : List Value → Bool
every_byte [] = true
every_byte (v ∷ vs) = is_byte v && every_byte vs

-- `Buffer.from`, of values that are bytes.
abbrev pub buffer_from : List Value → List ℕ
buffer_from [] = []
buffer_from (integer (pos n) ∷ vs) = n ∷ buffer_from vs
buffer_from (_ ∷ vs) = 0 ∷ buffer_from vs

unfoldable pub encode_message : List Value → Encoded
encode_message fields =
    if not (length fields == 4)
    then type_error
    else if not (every_byte fields)
    then range_error
    else buffer (buffer_from fields)

-- The messages of a buffer, and what remains.
unfoldable pub decode_frames : List ℕ → List Message × List ℕ
decode_frames (t ∷ d ∷ a ∷ v ∷ rest) =
    let (messages, remaining) = decode_frames rest in (message t d a v ∷ messages, remaining)
decode_frames remaining = ([], remaining)

abbrev pub same_text : List ℕ → List ℕ → Bool
same_text [] [] = true
same_text [] (b ∷ bs) = false
same_text (a ∷ as') [] = false
same_text (a ∷ as') (b ∷ bs) = a == b && same_text as' bs

abbrev pub fields : ℕ → ℕ → ℕ → ℕ → List Value
fields t d a v = byte t ∷ byte d ∷ byte a ∷ byte v ∷ []

abbrev pub fixed_commands : List (List ℕ × List Value)
fixed_commands =
    (bytes_of "led_on", fields msg_cmd dev_led act_on 0)
    ∷ (bytes_of "led_off", fields msg_cmd dev_led act_off 0)
    ∷ (bytes_of "led_low", fields msg_cmd dev_led act_set_brightness 1)
    ∷ (bytes_of "led_mid", fields msg_cmd dev_led act_set_brightness 2)
    ∷ (bytes_of "led_high", fields msg_cmd dev_led act_set_brightness 3)
    ∷ (bytes_of "buzzer_on", fields msg_cmd dev_buzzer act_on 0)
    ∷ (bytes_of "buzzer_off", fields msg_cmd dev_buzzer act_off 0)
    ∷ (bytes_of "buzzer_melody", fields msg_cmd dev_buzzer act_play_melody 0)
    ∷ (bytes_of "query_led", fields msg_query dev_led act_get_status 0)
    ∷ (bytes_of "query_buzzer", fields msg_query dev_buzzer act_get_status 0)
    ∷ (bytes_of "query_sensor", fields msg_query dev_sensor act_get_status 0)
    ∷ (bytes_of "query_lux", fields msg_query dev_sensor act_get_lux 0)
    ∷ (bytes_of "segment_stop", fields msg_cmd dev_segment act_off 0)
    ∷ []

abbrev pub lookup : List ℕ → List (List ℕ × List Value) → Option (List Value)
lookup name [] = none
lookup name ((key, vs) ∷ rows) =
    let rest = lookup name rows in if same_text key name then some vs else rest

-- The names that every object has from `Object.prototype`; none of these values is an array.
abbrev pub inherited : List (List ℕ × List Value)
inherited =
    (bytes_of "constructor", [])
    ∷ (bytes_of "toString", [])
    ∷ (bytes_of "toLocaleString", [])
    ∷ (bytes_of "valueOf", [])
    ∷ (bytes_of "hasOwnProperty", [])
    ∷ (bytes_of "isPrototypeOf", [])
    ∷ (bytes_of "propertyIsEnumerable", [])
    ∷ (bytes_of "__proto__", [])
    ∷ (bytes_of "__defineGetter__", [])
    ∷ (bytes_of "__defineSetter__", [])
    ∷ (bytes_of "__lookupGetter__", [])
    ∷ (bytes_of "__lookupSetter__", [])
    ∷ []

-- The test of `payload.value` for a countdown.
abbrev pub countdown_value : Value → Bool
countdown_value (integer (pos n)) = leb 1 n && leb n 9
countdown_value _ = false

abbrev pub fixed_command : List ℕ → Encoded
fixed_command command = elim (lookup command fixed_commands) [
  | some vs ↦ encode_message vs
  | none ↦ elim (lookup command inherited) [ some vs ↦ type_error | none ↦ range_error ]
]

-- `value` is `payload.value`.
unfoldable pub command_message : List ℕ → Value → Encoded
unfolding encode_message
command_message command value =
    if same_text command (bytes_of "segment")
    then if countdown_value value
      then encode_message (byte msg_cmd ∷ byte dev_segment ∷ byte act_set_number ∷ value ∷ [])
      else range_error
    else fixed_command command

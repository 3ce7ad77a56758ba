-- ===== src/Gateway/FrameLaws.antt =====
-- What web/protocol.js sends and reads, against include/protocol.h and server/handler.c.
use linux_veda_4sensor_tcp_c.Prelude.{
  ◌||◌, ℕ, ◌≤◌, ◌<◌, ◌≡◌, refl, sym, ap, ◌∙◌, subst, ◌⊎◌, inl, inr, true, Bool-cases, Option-cases,
  pos, negsuc, Option, none, some, List, [], ◌∷◌, ◌++◌, All, arith,
}
use linux_veda_4sensor_tcp_c.Process.Text.{bytes_of}
use linux_veda_4sensor_tcp_c.Protocol.{
  Message, message, msg_cmd, msg_query, msg_resp, dev_segment, dev_led, dev_buzzer, dev_sensor,
  act_on, act_off, act_set_brightness, act_set_number, act_get_status, act_play_melody, act_get_lux,
  resp_err,
}
use linux_veda_4sensor_tcp_c.Protocol.Codec.{encode}
use linux_veda_4sensor_tcp_c.Server.State.{World, Env}
use linux_veda_4sensor_tcp_c.Server.Commands.{respond}
use linux_veda_4sensor_tcp_c.Server.Reply.{
  documented, is_parameterless, answer, respond-Answered, respond-echo,
}
use linux_veda_4sensor_tcp_c.Server.SessionLaws.{stream}
use linux_veda_4sensor_tcp_c.Gateway.Frames.{
  Value, integer, other, byte, Encoded, buffer, type_error, range_error, encode_message,
  decode_frames, fixed_commands, lookup, inherited, countdown_value, fixed_command, command_message,
  same_text,
}

-- The frames of messages and of what follows.
pub decode_frames-stream :
    (ms : List Message) (rest : List ℕ)
    → decode_frames (stream ms ++ rest) ≡ (ms ++ (decode_frames rest).0, (decode_frames rest).1)
unfolding decode_frames encode
decode_frames-stream [] rest = refl
decode_frames-stream (m ∷ ms) rest = let rec = decode_frames-stream ms rest in rw rec refl

-- A message that the server takes: a command that the document lists, or a query.
pub Taken : Message → Type 0
Taken m = (m.value < 256) × (((m.type ≡ msg_cmd) × (documented m ≡ true)) ⊎ (m.type ≡ msg_query))

-- The fields are those of such a message.
Fit : List ℕ × List Value → Type 0
Fit row = (m : Message) × (encode_message (row.1) ≡ buffer (encode m)) × Taken m

fixed_commands-Fit : All Fit fixed_commands
unfolding Fit Taken encode_message encode documented is_parameterless
fixed_commands-Fit =
    let listed = λ (d a v : ℕ). message msg_cmd d a v in
    let asked = λ (d a : ℕ). message msg_query d a 0 in
    (
      (listed dev_led act_on 0, refl, (omega arith, inl (refl, refl))),
      (
        (listed dev_led act_off 0, refl, (omega arith, inl (refl, refl))),
        (
          (listed dev_led act_set_brightness 1, refl, (omega arith, inl (refl, refl))),
          (
            (listed dev_led act_set_brightness 2, refl, (omega arith, inl (refl, refl))),
            (
              (listed dev_led act_set_brightness 3, refl, (omega arith, inl (refl, refl))),
              (
                (listed dev_buzzer act_on 0, refl, (omega arith, inl (refl, refl))),
                (
                  (listed dev_buzzer act_off 0, refl, (omega arith, inl (refl, refl))),
                  (
                    (listed dev_buzzer act_play_melody 0, refl, (omega arith, inl (refl, refl))),
                    (
                      (asked dev_led act_get_status, refl, (omega arith, inr refl)),
                      (
                        (asked dev_buzzer act_get_status, refl, (omega arith, inr refl)),
                        (
                          (asked dev_sensor act_get_status, refl, (omega arith, inr refl)),
                          (
                            (asked dev_sensor act_get_lux, refl, (omega arith, inr refl)),
                            (
                              (listed dev_segment act_off 0, refl, (omega arith, inl (refl, refl))),
                              tt,
                            ),
                          ),
                        ),
                      ),
                    ),
                  ),
                ),
              ),
            ),
          ),
        ),
      ),
    )

lookup-All :
    (name : List ℕ) (rows : List (List ℕ × List Value)) (vs : List Value)
    → All Fit rows
    → lookup name rows ≡ some vs
    → (m : Message) × (encode_message vs ≡ buffer (encode m)) × Taken m
unfolding Fit
lookup-All name [] vs h e = cc
lookup-All name ((key, ws) ∷ rows) vs (h, hs) e = elim (Bool-cases (same_text key name)) [
  | inl hit ↦
      let (m, enc, taken) = h in
      let same : ws ≡ vs = let e' : some ws ≡ some vs = rw hit at e in cc in
      (m, subst (λ l. encode_message l ≡ buffer (encode m)) same enc, taken)
  | inr miss ↦ lookup-All name rows vs hs (rw miss at e)
]

countdown_Fit :
    (value : Value)
    → countdown_value value ≡ true
    → (m : Message) × (encode_message
          (byte msg_cmd ∷ (byte dev_segment ∷ (byte act_set_number ∷ (value ∷ []))))
        ≡ buffer (encode m))
      × Taken m
unfolding Taken encode_message encode documented is_parameterless
countdown_Fit (integer (pos n)) e =
    let low : (1 ≤ n) × (n ≤ 9) = ground (arith, e) in
    (
      message msg_cmd dev_segment act_set_number n,
      ground arith,
      (omega arith, inl (refl, ground arith)),
    )
countdown_Fit (integer (negsuc n)) e = cc
countdown_Fit other e = cc

buffer-injective : {a b : List ℕ} → buffer a ≡ buffer b → a ≡ b
buffer-injective {a} e = ap contents e
  where
    contents : Encoded → List ℕ
    contents (buffer bytes) = bytes
    contents type_error = a
    contents range_error = a

-- What a command that is not refused sends.
fits :
    (vs : List Value) (bytes : List ℕ)
    → (m : Message) × (encode_message vs ≡ buffer (encode m)) × Taken m
    → encode_message vs ≡ buffer bytes
    → (m : Message) × (bytes ≡ encode m) × Taken m
fits vs bytes (m, enc, taken) e = (m, buffer-injective (sym e ∙ enc), taken)

fixed_command-Fit :
    (command bytes : List ℕ)
    → fixed_command command ≡ buffer bytes
    → (m : Message) × (bytes ≡ encode m) × Taken m
fixed_command-Fit command bytes e = go (lookup command fixed_commands) refl e
  where
    go :
        (o : Option (List Value))
        → lookup command fixed_commands ≡ o
        → elim o [
          | some vs ↦ encode_message vs
          | none ↦ elim (lookup command inherited) [ some vs ↦ type_error | none ↦ range_error ]
        ]
          ≡ buffer bytes
        → (m : Message) × (bytes ≡ encode m) × Taken m
    go (some vs) found e =
        fits vs bytes (lookup-All command fixed_commands vs fixed_commands-Fit found) e
    go none found e = elim (Option-cases (lookup command inherited)) [
      | inl n ↦ let wrong : range_error ≡ buffer bytes = rw n at e in cc
      | inr (vs, n) ↦ let wrong : type_error ≡ buffer bytes = rw n at e in cc
    ]

pub command_message-Fit :
    (command : List ℕ) (value : Value) (bytes : List ℕ)
    → command_message command value ≡ buffer bytes
    → (m : Message) × (bytes ≡ encode m) × Taken m
unfolding command_message
command_message-Fit command value bytes e =
    elim (Bool-cases (same_text command (bytes_of "segment"))) [
      | inl segment ↦ elim (Bool-cases (countdown_value value)) [
        | inl good ↦
            fits (byte msg_cmd ∷ (byte dev_segment ∷ (byte act_set_number ∷ (value ∷ [])))) bytes
              (countdown_Fit value good) (rw (segment, good) at e)
        | inr bad ↦ let wrong : range_error ≡ buffer bytes = rw (segment, bad) at e in cc
      ]
      | inr fixed ↦ fixed_command-Fit command bytes (rw fixed at e)
    ]

-- What the server answers to such a message.
pub Served : Env → Message → World → Type 0
Served env m w =
    ((m.type ≡ msg_cmd) × ((respond env m w).0 ≡ answer true m))
    ⊎ ((m.type ≡ msg_query)
        × ((respond env m w).0.type ≡ msg_resp)
        × ((respond env m w).0.device ≡ m.device)
        × (((respond env m w).0.action ≡ m.action)
            ⊎ ((respond env m w).0 ≡ message msg_resp dev_sensor 0 resp_err)))

-- If `commandMessage` of the gateway does not throw, then what it gives are the bytes of one message.
-- With threads to be had, the server answers it by success, if it is a command, and otherwise, since
-- it is a query, by a response that has its device and action, or says that the light sensor cannot be
-- read.
pub command_message-Served :
    (command : List ℕ) (value : Value) (bytes : List ℕ) (env : Env) (w : World)
    → command_message command value ≡ buffer bytes
    → env.create_melody ≡ 0
    → env.create_segment ≡ 0
    → (m : Message) × (bytes ≡ encode m) × Served env m w
unfolding Served Taken
command_message-Served command value bytes env w e melody segment =
    let (m, same, (small, kind)) = command_message-Fit command value bytes e in
    (
      m,
      same,
      elim kind [
        | inl (is_cmd, listed) ↦
            let answered = respond-Answered env m w is_cmd small melody segment in
            inl
              (is_cmd, answered.reply ∙ ap (λ known. answer (known || is_parameterless m) m) listed)
        | inr is_query ↦
            let (kind, device, action) = respond-echo env m w in
            inr (is_query, kind, device, action)
      ],
    )

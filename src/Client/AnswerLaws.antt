-- ===== src/Client/AnswerLaws.antt =====
-- What client/main.c prints for the responses of server/handler.c, against the requests.
use linux_veda_4sensor_tcp_c.Prelude.{
  ℕ, suc, ◌≡◌, sym, ap, ◌∙◌, subst, ◌⊎◌, inl, inr, ◌==◌, Bool-cases, List, [], ◌∷◌, arith,
}
use linux_veda_4sensor_tcp_c.Protocol.{
  Message, message, msg_resp, dev_sensor, act_get_lux, act_get_status, resp_err,
}
use linux_veda_4sensor_tcp_c.Server.State.{World, Env}
use linux_veda_4sensor_tcp_c.Server.Commands.{respond}
use linux_veda_4sensor_tcp_c.Server.Reply.{respond-echo}
use linux_veda_4sensor_tcp_c.Server.SessionLaws.{dialogue}
use linux_veda_4sensor_tcp_c.Client.Display.{
  Line, brightness, state, result, dev_str, response_line, display,
}
use linux_veda_4sensor_tcp_c.Client.Receiver.{Output, line}
use linux_veda_4sensor_tcp_c.Client.ReceiverLaws.{lines}

-- A line that names the device of the request, or a brightness that was asked for.
abbrev pub Answers : Message → Line → Type 0
Answers m (result d r) = d ≡ dev_str m.device
Answers m (state d v) = d ≡ dev_str m.device
Answers m (brightness n) = m.action ≡ act_get_lux
Answers m _ = ⊥

response_line-Answers :
    (m r : Message)
    → r.device ≡ m.device
    → (r.action ≡ m.action) ⊎ (r ≡ message msg_resp dev_sensor 0 resp_err)
    → Answers m (response_line r)
unfolding response_line
response_line-Answers m r d (inl a) = elim (Bool-cases (r.action == act_get_lux)) [
  | inl lux ↦ rw lux (ground (arith, a, lux))
  | inr other ↦ rw other (elim (Bool-cases (r.action == act_get_status)) [
    | inl status ↦ rw status (ap dev_str d)
    | inr command ↦ rw command (ap dev_str d)
  ])
]
response_line-Answers m r d (inr e) =
    subst (λ x. Answers m (response_line x)) (sym e) (ap dev_str (ap (λ x. x.device) (sym e) ∙ d))

-- Each message is answered by a line of its own.
abbrev pub Told : List Message → List Output → Type 0
Told [] [] = Unit
Told (m ∷ ms) (line l ∷ out) = Answers m l × Told ms out
Told _ _ = ⊥

pub dialogue-Told :
    (envs : ℕ → Env) (others : ℕ → World → World) (ms : List Message) (i : ℕ) (w : World)
    → Told ms (lines (dialogue envs others ms i w).0)
unfolding display
dialogue-Told envs others [] i w = tt
dialogue-Told envs others (m ∷ ms) i w =
    let (r, w₁) = respond (envs i) m (others i w) in
    let (type, device, action) = respond-echo (envs i) m (others i w) in
    rw type (response_line-Answers m r device action, dialogue-Told envs others ms (suc i) w₁)

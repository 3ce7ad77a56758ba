-- ===== src/Server/SessionLaws.antt =====
-- What a client gets over a whole connection to server/handler.c.
use linux_veda_4sensor_tcp_c.Prelude.{
  ℕ, zero, suc, ◌+◌, ◌<◌, ◌≤◌, ◌≡◌, refl, sym, ap, ◌∙◌, subst, ℤ, none, some, List, [], ◌∷◌, ◌++◌,
  append_assoc, length, arith,
}
use linux_veda_4sensor_tcp_c.Protocol.{Message}
use linux_veda_4sensor_tcp_c.Protocol.Codec.{message_size, encode, decode-encode}
use linux_veda_4sensor_tcp_c.ProtocolIo.Contract.{RecvOk, SendOk}
use linux_veda_4sensor_tcp_c.ProtocolIo.Recv.{RecvResult, RecvEnd, complete, closed, failed}
use linux_veda_4sensor_tcp_c.ProtocolIo.Send.{SendResult, SendEnd, protocol_send_message}
use linux_veda_4sensor_tcp_c.ProtocolIo.Send
use linux_veda_4sensor_tcp_c.ProtocolIo.RecvLaws.{RecvSpec, protocol_recv_message_lem, recv-encode}
use linux_veda_4sensor_tcp_c.ProtocolIo.SendLaws.{protocol_send_message_lem}
use linux_veda_4sensor_tcp_c.ProtocolIo.SendLaws
use linux_veda_4sensor_tcp_c.ProtocolIo.Keeps.{
  protocol_recv_message-keeps, protocol_send_message-keeps,
}
use linux_veda_4sensor_tcp_c.Server.State.{World, Env}
use linux_veda_4sensor_tcp_c.Server.Commands.{respond}
use linux_veda_4sensor_tcp_c.Server.Accept.{end_client}
use linux_veda_4sensor_tcp_c.Server.Session.{request_of, handle_client}

-- Messages as the bytes of a stream.
abbrev pub stream : List Message → List ℕ
stream [] = []
stream (m ∷ ms) = encode m ++ stream ms

-- Requests served one after the other, with no network between.
abbrev pub dialogue :
    (ℕ → Env) → (ℕ → World → World) → List Message → ℕ → World → List Message × World
dialogue envs others [] i w = ([], others i w)
dialogue envs others (m ∷ ms) i w =
    let (r, w₁) = respond (envs i) m (others i w) in
    let (rs, w₂) = dialogue envs others ms (suc i) w₁ in (r ∷ rs, w₂)

-- What a client hears: before each response, and at the end, what is broadcast to it.
abbrev pub interleaved : (ℕ → List Message) → List Message → ℕ → List Message
interleaved told [] i = told i
interleaved told (r ∷ rs) i = told i ++ (r ∷ interleaved told rs (suc i))

pub stream-append : (ms ns : List Message) → stream (ms ++ ns) ≡ stream ms ++ stream ns
stream-append [] ns = refl
stream-append (m ∷ ms) ns =
    ap (λ bs. encode m ++ bs) (stream-append ms ns)
    ∙ sym (append_assoc (encode m) (stream ms) (stream ns))

-- The other threads send the messages `told i` before request number i, each whole; this takes
-- nothing from what the client has sent, and does not interrupt this thread.
pub record Tells {Net : Type 0} (pending accepted : Net → List ℕ) (interrupts : Net → ℕ)
    (told : ℕ → List Message) (broadcasts : ℕ → Net → Net) : Type 0 where
  pub whole : (i : ℕ) (s : Net) → accepted (broadcasts i s) ≡ accepted s ++ stream (told i)
  pub unread : (i : ℕ) (s : Net) → pending (broadcasts i s) ≡ pending s
  pub still : (i : ℕ) (s : Net) → interrupts (broadcasts i s) ≤ interrupts s

-- A result that is not 1 has no request, and at the end of the stream there is no other.
no_request :
    {Net : Type 0} (pending : Net → List ℕ) (interrupts : Net → ℕ) (n : ℕ) (e : RecvEnd)
    (w : List ℕ) (t : Net)
    → RecvSpec pending interrupts (λ _. ⊥) [] n (record { result = e; written = w; net = t })
    → request_of e w ≡ none
no_request pending interrupts n complete [] t s = absurd (omega (arith, s.outcome.0))
no_request pending interrupts n complete (b ∷ w) t s = absurd (cc (s.outcome.1))
no_request pending interrupts n closed w t s = refl
no_request pending interrupts n (failed e) w t s = refl

-- A response on a connection that does not break is sent whole.
sent_whole :
    {Net : Type 0} (accepted : Net → List ℕ) (interrupts : Net → ℕ) (a bs : List ℕ) (r : SendEnd)
    (t : Net)
    → SendLaws.Outcome accepted interrupts (λ _. ⊥) a bs r t
    → accepted t ≡ a ++ bs
sent_whole accepted interrupts a bs Send.delivered t h = h
sent_whole accepted interrupts a bs (Send.failed e) t h = absurd h.2

module _ {Net : Type 0} (pending accepted : Net → List ℕ) (interrupts : Net → ℕ)
    (recv : Net → ℕ → RecvResult × Net) (send : Net → List ℕ → SendResult × Net)
    (recv_law : (s : Net) (n : ℕ) → 0 < n → RecvOk pending interrupts (λ _. ⊥) s n (recv s n))
    (send_law : (s : Net) (bs : List ℕ)
      → 0 < length bs
      → SendOk accepted interrupts (λ _. ⊥) s bs (send s bs))
    (recv_quiet : (s : Net) (n : ℕ) → accepted (recv s n).1 ≡ accepted s)
    (send_quiet : (s : Net) (bs : List ℕ) → pending (send s bs).1 ≡ pending s) (io_fuel : ℕ)
    (envs : ℕ → Env) (others : ℕ → World → World) (told : ℕ → List Message)
    (broadcasts : ℕ → Net → Net) (tells : Tells pending accepted interrupts told broadcasts)
    (cfd : ℤ) where
  -- On a connection that does not break, a client that sends the requests `ms` and then closes,
  -- in whatever pieces they travel, gets exactly the responses to them, in order and each once, each
  -- computed in the state that the requests before it and the other threads have left, and between
  -- them the messages that other threads broadcast to it, where they come; then its descriptor
  -- leaves the table and is closed. No other message comes between the parts of one.
  pub handle_client_lem :
      (ms : List Message) (fuel i : ℕ) (net : Net) (w : World)
      → length ms < fuel
      → message_size + interrupts net < io_fuel
      → pending net ≡ stream ms
      → (t : Net) × (handle_client recv send io_fuel envs others broadcasts cfd fuel i net w
          ≡ some (t, end_client cfd (dialogue envs others ms i w).1))
        × (accepted t ≡ accepted net ++ stream (interleaved told (dialogue envs others ms i w).0 i))
  unfolding handle_client
  handle_client_lem ms zero i net w enough io e = absurd (omega arith)
  handle_client_lem [] (suc fuel) i net w enough io e =
      let (r, returns, spec) =
        protocol_recv_message_lem pending interrupts (λ _. ⊥) recv recv_law (broadcasts i net)
          io_fuel (omega (io, tells.still i net, arith)) in
      let none_left =
        no_request pending interrupts (interrupts (broadcasts i net)) r.result r.written r.net (
          subst (λ p. RecvSpec pending interrupts (λ _. ⊥) p (interrupts (broadcasts i net)) r)
            (tells.unread i net ∙ e) spec) in
      (
        r.net,
        rw (returns, none_left) refl,
        protocol_recv_message-keeps accepted recv recv_quiet io_fuel (broadcasts i net) r returns
            ∙ tells.whole i net,
      )
  handle_client_lem (m ∷ ms) (suc fuel) i net w enough io e =
      let (t, returns, left, few) =
        recv-encode pending interrupts recv recv_law m (stream ms) (broadcasts i net) io_fuel
          (omega (io, tells.still i net, arith)) (tells.unread i net ∙ e) in
      let (response, w₁) = respond (envs i) m (others i w) in
      let (r, u, sends, outcome, fewer) =
        protocol_send_message_lem accepted interrupts (λ _. ⊥) send send_law response t io_fuel
          (omega arith) in
      let (v, done, all) =
        handle_client_lem ms fuel (suc i) u w₁ (omega arith) (omega arith) (
          protocol_send_message-keeps pending send send_quiet io_fuel response t r u sends
          ∙ left) in
      let untouched =
        protocol_recv_message-keeps accepted recv recv_quiet io_fuel (broadcasts i net) _ returns
        ∙ tells.whole i net in
      let rest = interleaved told (dialogue envs others ms (suc i) w₁).0 (suc i) in
      (
        v,
        rw (returns, decode-encode m, sends) done,
        all
            ∙ ap (λ a. a ++ stream rest)
                (sent_whole accepted interrupts (accepted t) (encode response) r u outcome)
            ∙ append_assoc (accepted t) (encode response) (stream rest)
            ∙ ap (λ a. a ++ stream (response ∷ rest)) untouched
            ∙ append_assoc (accepted net) (stream (told i)) (stream (response ∷ rest))
            ∙ ap (λ b. accepted net ++ b) (sym (stream-append (told i) (response ∷ rest))),
      )

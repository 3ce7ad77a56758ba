-- ===== src/Server/SessionEnds.antt =====
-- How a connection of server/handler.c ends when the network fails.
use linux_veda_4sensor_tcp_c.Prelude.{
  ℕ, zero, suc, ◌+◌, ◌*◌, ◌<◌, ◌≤◌, ◌≡◌, refl, sym, ap, ◌∙◌, ◌⊎◌, inl, inr, ℤ, none, some, List, [],
  ◌∷◌, ◌++◌, append_assoc, length, length-append, arith,
}
use linux_veda_4sensor_tcp_c.Protocol.{Message}
use linux_veda_4sensor_tcp_c.Protocol.Codec.{
  message_size, encode, decode_total, decode-encode, length-encode,
}
use linux_veda_4sensor_tcp_c.ProtocolIo.Defs.{Errno}
use linux_veda_4sensor_tcp_c.ProtocolIo.Contract.{RecvOk, SendOk}
use linux_veda_4sensor_tcp_c.ProtocolIo.Recv.{RecvResult, RecvEnd, complete, closed, failed}
use linux_veda_4sensor_tcp_c.ProtocolIo.Send.{SendResult}
use linux_veda_4sensor_tcp_c.ProtocolIo.RecvLaws.{RecvSpec, protocol_recv_message_lem}
use linux_veda_4sensor_tcp_c.ProtocolIo.SendLaws.{protocol_send_message_lem}
use linux_veda_4sensor_tcp_c.ProtocolIo.Keeps.{protocol_send_message-keeps}
use linux_veda_4sensor_tcp_c.Server.State.{World, Env}
use linux_veda_4sensor_tcp_c.Server.Commands.{respond}
use linux_veda_4sensor_tcp_c.Server.Accept.{end_client}
use linux_veda_4sensor_tcp_c.Server.Session.{request_of, handle_client}
use linux_veda_4sensor_tcp_c.Server.SessionLaws.{stream, dialogue}

-- A return of `protocol_recv_message` is the end of the loop, or the next request of the stream `p`.
request_or_end :
    {Net : Type 0} (pending : Net → List ℕ) (interrupts : Net → ℕ) (Breaks : Errno → Type 0)
    (p : List ℕ) (n : ℕ) (e : RecvEnd) (w : List ℕ) (t : Net)
    → RecvSpec pending interrupts Breaks p n (record { result = e; written = w; net = t })
    → (request_of e w ≡ none)
      ⊎ ((m : Message) × (request_of e w ≡ some m) × (p ≡ encode m ++ pending t))
request_or_end pending interrupts Breaks p n complete w t s =
    let (m, whole) = decode_total w (s.outcome.0) in
    inr (m, rw whole (decode-encode m), s.outcome.1 ∙ ap (λ a. a ++ pending t) whole)
request_or_end pending interrupts Breaks p n closed w t s = inl refl
request_or_end pending interrupts Breaks p n (failed e) w t s = inl refl

module _ {Net : Type 0} (pending accepted : Net → List ℕ) (interrupts : Net → ℕ)
    (Breaks : Errno → Type 0) (recv : Net → ℕ → RecvResult × Net)
    (send : Net → List ℕ → SendResult × Net)
    (recv_law : (s : Net) (n : ℕ) → 0 < n → RecvOk pending interrupts Breaks s n (recv s n))
    (send_law : (s : Net) (bs : List ℕ)
      → 0 < length bs
      → SendOk accepted interrupts Breaks s bs (send s bs))
    (send_quiet : (s : Net) (bs : List ℕ) → pending (send s bs).1 ≡ pending s) (io_fuel : ℕ)
    (envs : ℕ → Env) (others : ℕ → World → World) (broadcasts : ℕ → Net → Net)
    (unread : (i : ℕ) (s : Net) → pending (broadcasts i s) ≡ pending s)
    (still : (i : ℕ) (s : Net) → interrupts (broadcasts i s) ≤ interrupts s) (cfd : ℤ) where
  -- However the connection breaks, in a receive or in a send, and wherever the peer's bytes end, the
  -- thread of a client ends: it has served the whole messages of a front of these bytes, in order
  -- and each once, and then its descriptor has left the table and is closed. What other threads
  -- broadcast to the client changes nothing in this: it takes nothing from what the client has sent.
  pub handle_client_total :
      (fuel i : ℕ) (net : Net) (w : World)
      → length (pending net) < 4 * fuel
      → message_size + interrupts net < io_fuel
      → (ms : List Message) × (rest : List ℕ) × (t : Net) × (handle_client recv send io_fuel envs
            others broadcasts cfd fuel i net w
          ≡ some (t, end_client cfd (dialogue envs others ms i w).1))
        × (pending net ≡ stream ms ++ rest)
  unfolding handle_client
  handle_client_total zero i net w enough io = absurd (omega arith)
  handle_client_total (suc fuel) i net w enough io =
      let (r, returns, spec) =
        protocol_recv_message_lem pending interrupts Breaks recv recv_law (broadcasts i net) io_fuel
          (omega (io, still i net, arith)) in
      elim (request_or_end pending interrupts Breaks (pending (broadcasts i net))
        (interrupts (broadcasts i net)) r.result r.written r.net spec) [
          | inl end ↦ ([], pending net, r.net, rw (returns, end) refl, refl)
          | inr (m, found, taken) ↦
              let front = sym (unread i net) ∙ taken in
              let (response, w₁) = respond (envs i) m (others i w) in
              let (e, u, sends, outcome, fewer) =
                protocol_send_message_lem accepted interrupts Breaks send send_law response r.net
                  io_fuel (omega (arith, spec.fewer, still i net, io)) in
              let same =
                protocol_send_message-keeps pending send send_quiet io_fuel response r.net e u
                  sends in
              let shorter : length (pending u) < 4 * fuel = omega (
                arith,
                ap length same,
                ap length front,
                length-append (encode m) (pending r.net),
                length-encode m,
              ) in
              let (ms, rest, t, done, split) =
                handle_client_total fuel (suc i) u w₁ shorter
                  (omega (arith, spec.fewer, fewer, still i net, io)) in
              (
                m ∷ ms,
                rest,
                t,
                rw (returns, found, sends) done,
                front
                    ∙ ap (λ p. encode m ++ p) (sym same ∙ split)
                    ∙ sym (append_assoc (encode m) (stream ms) rest),
              )
        ]

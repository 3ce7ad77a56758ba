-- ===== src/Client/ReceiverLaws.antt =====
-- What recv_thread_fn of client/main.c prints over a whole connection.
use linux_veda_4sensor_tcp_c.Prelude.{
  ℕ, zero, suc, ◌+◌, ◌*◌, ◌<◌, ◌≡◌, refl, sym, ap, ◌∙◌, ◌⊎◌, inl, inr, Option, none, some, List, [],
  ◌∷◌, ◌++◌, append_assoc, length, length-append, arith,
}
use linux_veda_4sensor_tcp_c.Protocol.{Message}
use linux_veda_4sensor_tcp_c.Protocol.Codec.{
  message_size, encode, decode_total, decode-encode, length-encode,
}
use linux_veda_4sensor_tcp_c.ProtocolIo.Defs.{Errno}
use linux_veda_4sensor_tcp_c.ProtocolIo.Contract.{RecvOk}
use linux_veda_4sensor_tcp_c.ProtocolIo.Recv.{RecvResult, RecvEnd, complete, closed, failed}
use linux_veda_4sensor_tcp_c.ProtocolIo.RecvLaws.{RecvSpec, protocol_recv_message_lem}
use linux_veda_4sensor_tcp_c.Server.Session.{request_of}
use linux_veda_4sensor_tcp_c.Server.SessionLaws.{stream}
use linux_veda_4sensor_tcp_c.Client.Display.{Line, display}
use linux_veda_4sensor_tcp_c.Client.Receiver.{Output, line, connection_lost, show, recv_thread_fn}

-- The lines for messages, in order; a message that is no event and no response has none.
abbrev pub lines : List Message → List Output
lines [] = []
lines (m ∷ ms) = show (display m) [] ++ lines ms

show-lines :
    (o : Option Line) (out more : List Output) → show o out ++ more ≡ out ++ (show o [] ++ more)
show-lines none out more = refl
show-lines (some l) out more = append_assoc out (line l ∷ []) more

module _ {Net : Type 0} (pending : Net → List ℕ) (interrupts : Net → ℕ)
    (Breaks : Errno → Type 0) where
  -- What is left of the stream when the loop ends: part of a message, unless the connection broke.
  abbrev pub Remains : List ℕ → Type 0
  Remains rest = (length rest < message_size) ⊎ ((e : Errno) × Breaks e)

  -- A return of `protocol_recv_message` is the end of the loop, or the next message of the stream `p`.
  message_or_end :
      (p : List ℕ) (n : ℕ) (e : RecvEnd) (w : List ℕ) (t : Net)
      → RecvSpec pending interrupts Breaks p n (record { result = e; written = w; net = t })
      → ((request_of e w ≡ none) × Remains p)
        ⊎ ((m : Message) × (request_of e w ≡ some m) × (p ≡ encode m ++ pending t))
  message_or_end p n complete w t s =
      let (m, whole) = decode_total w (s.outcome.0) in
      inr (m, rw whole (decode-encode m), s.outcome.1 ∙ ap (λ a. a ++ pending t) whole)
  message_or_end p n closed w t s = inl (refl, inl (omega (ap length (s.outcome.0), arith)))
  message_or_end p n (failed e) w t s =
      inl (refl, elim s.outcome [ inl (_, _, short) ↦ inl short | inr broken ↦ inr (e, broken) ])

  module _ (recv : Net → ℕ → RecvResult × Net)
      (recv_law : (s : Net) (n : ℕ) → 0 < n → RecvOk pending interrupts Breaks s n (recv s n))
      (io_fuel : ℕ) where
    -- However the bytes come in and wherever they end, the thread ends: it has printed the lines of
    -- the whole messages of a front of these bytes, in order and each once, and last that the
    -- connection is gone; what is left is shorter than a message, unless the connection broke.
    pub recv_thread_fn_lem :
        (fuel : ℕ) (net : Net) (out : List Output)
        → length (pending net) < 4 * fuel
        → message_size + interrupts net < io_fuel
        → (ms : List Message) × (rest : List ℕ) × (t : Net) × (recv_thread_fn recv io_fuel fuel net
              out
            ≡ some (t, out ++ (lines ms ++ connection_lost ∷ [])))
          × (pending net ≡ stream ms ++ rest)
          × Remains rest
    unfolding recv_thread_fn
    recv_thread_fn_lem zero net out enough io = absurd (omega arith)
    recv_thread_fn_lem (suc fuel) net out enough io =
        let (r, returns, spec) =
          protocol_recv_message_lem pending interrupts Breaks recv recv_law net io_fuel io in
        elim (message_or_end (pending net) (interrupts net) r.result r.written r.net spec) [
          | inl (end, left) ↦ ([], pending net, r.net, rw (returns, end) refl, refl, left)
          | inr (m, found, front) ↦
              let shorter : length (pending r.net) < 4 * fuel = omega (
                arith,
                ap length front,
                length-append (encode m) (pending r.net),
                length-encode m,
              ) in
              let (ms, rest, t, done, split, left) =
                recv_thread_fn_lem fuel r.net (show (display m) out) shorter
                  (omega (arith, spec.fewer)) in
              let tail = lines ms ++ connection_lost ∷ [] in
              (
                m ∷ ms,
                rest,
                t,
                rw (returns, found)
                    (done
                      ∙ ap (λ o. some (t, o))
                          (show-lines (display m) out tail
                            ∙ ap (λ o. out ++ o)
                                (sym (
                                  append_assoc (show (display m) []) (lines ms)
                                    (connection_lost ∷ []))))),
                front
                    ∙ ap (λ p. encode m ++ p) split
                    ∙ sym (append_assoc (encode m) (stream ms) rest),
                left,
              )
        ]

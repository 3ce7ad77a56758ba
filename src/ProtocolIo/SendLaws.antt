-- ===== src/ProtocolIo/SendLaws.antt =====
-- What `protocol_send_message` of common/protocol_io.c leaves sent, for every way in which the
-- kernel takes the bytes.
use linux_veda_4sensor_tcp_c.Prelude.{
  ℕ, zero, suc, ◌+◌, ◌<◌, ◌≤◌, ◌≡◌, ◌≢◌, refl, true, lt→ltb, sym, ap, subst, ◌∙◌, ltb, Option, some,
  List, [], ◌∷◌, ◌++◌, append_assoc, append-nil, length, take, drop, take-append-drop, arith,
}
use linux_veda_4sensor_tcp_c.Protocol.{Message}
use linux_veda_4sensor_tcp_c.Protocol.Codec.{message_size, encode, length-encode}
use linux_veda_4sensor_tcp_c.ProtocolIo.Defs.{Errno, eintr}
use linux_veda_4sensor_tcp_c.ProtocolIo.Contract.{SendOk}
use linux_veda_4sensor_tcp_c.ProtocolIo.Send.{
  SendResult, sent, error, SendEnd, delivered, failed, after_send, send_loop, protocol_send_message,
}

length-drop : (n : ℕ) (xs : List ℕ) → n ≤ length xs → length (drop n xs) + n ≡ length xs
length-drop zero xs h = omega arith
length-drop (suc n) [] h = absurd (omega arith)
length-drop (suc n) (x ∷ xs) h = omega (arith, length-drop n xs (omega arith))

module _ {Net : Type 0} (accepted : Net → List ℕ) (interrupts : Net → ℕ)
    (Breaks : Errno → Type 0) where
  -- `bs` is to be sent when the kernel has taken `a`: a success has sent it all, and a failure a
  -- proper front of it.
  abbrev pub Outcome : List ℕ → List ℕ → SendEnd → Net → Type 0
  Outcome a bs delivered t = accepted t ≡ a ++ bs
  Outcome a bs (failed e) t =
      (front : List ℕ) × (rest : List ℕ) × Breaks e
      × (bs ≡ front ++ rest)
      × (rest ≢ [])
      × (accepted t ≡ a ++ front)

  abbrev pub Ends : List ℕ → List ℕ → ℕ → Option (SendEnd × Net) → Type 0
  Ends a bs n o =
      (r : SendEnd) × (t : Net) × (o ≡ some (r, t)) × Outcome a bs r t × (interrupts t ≤ n)

  -- What is sent behind bytes that were taken already.
  Outcome-append :
      (a taken left : List ℕ) (r : SendEnd) (t : Net)
      → Outcome (a ++ taken) left r t
      → Outcome a (taken ++ left) r t
  Outcome-append a taken left delivered t h = h ∙ append_assoc a taken left
  Outcome-append a taken left (failed e) t (front, rest, broke, split, more, h) = (
    taken ++ front,
    rest,
    broke,
    ap (◌++◌ taken) split ∙ sym (append_assoc taken front rest),
    more,
    h ∙ append_assoc a taken front,
  )

  -- One round: the answer of the kernel, and what the next rounds do.
  after_send-Ends :
      (again : List ℕ → Net → Option (SendEnd × Net)) (fuel : ℕ) (b : ℕ) (bs : List ℕ) (s : Net)
      → ((left : List ℕ) (t : Net)
          → length left + interrupts t < fuel
          → Ends (accepted t) left (interrupts t) (again left t))
      → length (b ∷ bs) + interrupts s < suc fuel
      → (o : SendResult × Net) → SendOk accepted interrupts Breaks s (b ∷ bs) o
      → Ends (accepted s) (b ∷ bs) (interrupts s) (after_send again (b ∷ bs) o)
  unfolding after_send
  after_send-Ends again fuel b bs s ih enough (sent zero, t) ok = absurd (omega arith)
  after_send-Ends again fuel b bs s ih enough (sent (suc n), t) ok =
      let (r, u, e, h, few) =
        ih (drop (suc n) (b ∷ bs)) t (omega (arith, length-drop (suc n) (b ∷ bs) ok.1)) in
      (
        r,
        u,
        e,
        subst (λ x. Outcome (accepted s) x r u) (take-append-drop (suc n) (b ∷ bs))
            (Outcome-append (accepted s) (take (suc n) (b ∷ bs)) (drop (suc n) (b ∷ bs)) r u
              (subst (λ x. Outcome x (drop (suc n) (b ∷ bs)) r u) ok.2 h)),
        omega arith,
      )
  after_send-Ends again fuel b bs s ih enough (error eintr, t) ok =
      let (r, u, e, h, few) = ih (b ∷ bs) t (omega arith) in
      (r, u, e, subst (λ x. Outcome x (b ∷ bs) r u) ok.0 h, omega arith)
  after_send-Ends again fuel b bs s ih enough (error e, t) ok =
      (_, t, refl, ([], b ∷ bs, ok.0, refl, λ x. cc, ok.1 ∙ sym (append-nil (accepted s))), ok.2)

  module _ (send : Net → List ℕ → SendResult × Net) where
    send_loop-Ends :
        ((s : Net) (bs : List ℕ)
          → 0 < length bs
          → SendOk accepted interrupts Breaks s bs (send s bs))
        → (fuel : ℕ) (left : List ℕ) (s : Net) → length left + interrupts s < fuel
        → Ends (accepted s) left (interrupts s) (send_loop send fuel left s)
    unfolding send_loop
    send_loop-Ends law zero left s enough = absurd (omega arith)
    send_loop-Ends law (suc fuel) [] s enough =
        (_, s, refl, sym (append-nil (accepted s)), omega arith)
    send_loop-Ends law (suc fuel) (b ∷ bs) s enough =
        let more : ltb 0 (length (b ∷ bs)) ≡ true = lt→ltb 0 _ (omega arith) in
        rw more (
          after_send-Ends (send_loop send fuel) fuel b bs s (send_loop-Ends law fuel) enough
            (send s (b ∷ bs)) (law s (b ∷ bs) (omega arith)))

-- However the kernel takes the bytes, enough rounds lead to a return. Result 0 means that the four
-- bytes of the message, and no others, were sent; result -1 that the connection broke with only a
-- proper front of the message sent.
pub protocol_send_message_lem :
    {Net : Type 0} (accepted : Net → List ℕ) (interrupts : Net → ℕ) (Breaks : Errno → Type 0)
    (send : Net → List ℕ → SendResult × Net)
    → ((s : Net) (bs : List ℕ) → 0 < length bs → SendOk accepted interrupts Breaks s bs (send s bs))
    → (m : Message) (s : Net) (fuel : ℕ) → message_size + interrupts s < fuel
    → (r : SendEnd) × (t : Net) × (protocol_send_message send fuel m s ≡ some (r, t))
      × Outcome accepted interrupts Breaks (accepted s) (encode m) r t
      × (interrupts t ≤ interrupts s)
unfolding protocol_send_message
protocol_send_message_lem accepted interrupts Breaks send law m s fuel enough =
    send_loop-Ends accepted interrupts Breaks send law fuel (encode m) s
      (omega (arith, length-encode m))

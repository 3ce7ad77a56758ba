-- ===== src/ProtocolIo/RecvLaws.antt =====
-- What `protocol_recv_message` of common/protocol_io.c returns, for every way in which the kernel
-- cuts the stream into pieces and interrupts the calls.
use linux_veda_4sensor_tcp_c.Prelude.{
  ℕ, zero, suc, ◌+◌, ◌<◌, ◌≤◌, ◌≡◌, refl, sym, ap, subst, ◌∙◌, ◌⊎◌, inl, inr, ltb, ◌==◌, Option,
  none, some, List, [], ◌∷◌, ◌++◌, append_assoc, append-nil, length, length-append, false,
  Bool-cases, ltb→lt, arith,
}
use linux_veda_4sensor_tcp_c.Protocol.{Message}
use linux_veda_4sensor_tcp_c.Protocol.Codec.{message_size, encode, length-encode}
use linux_veda_4sensor_tcp_c.ProtocolIo.Defs.{Errno, eintr, econnreset, epipe, other}
use linux_veda_4sensor_tcp_c.ProtocolIo.Contract.{RecvOk}
use linux_veda_4sensor_tcp_c.ProtocolIo.Recv.{
  RecvResult, bytes, error, RecvEnd, complete, closed, failed, RecvReturn, after_recv, recv_loop,
  protocol_recv_message,
}

module _ {Net : Type 0} (pending : Net → List ℕ) (interrupts : Net → ℕ)
    (Breaks : Errno → Type 0) where
  -- The documented results, for a stream that holds `p` when the call is made.
  abbrev pub Outcome : List ℕ → RecvEnd → List ℕ → Net → Type 0
  Outcome p complete written s = (length written ≡ message_size) × (p ≡ written ++ pending s)
  Outcome p closed written s = (p ≡ []) × (written ≡ [])
  Outcome p (failed e) written s =
      ((e ≡ econnreset) × (0 < length p) × (length p < message_size)) ⊎ Breaks e

  pub record RecvSpec (p : List ℕ) (n : ℕ) (r : RecvReturn Net) : Type 0 where
    pub outcome : Outcome p r.result r.written r.net
    pub fewer : interrupts r.net ≤ n

  abbrev pub Ends : List ℕ → ℕ → Option (RecvReturn Net) → Type 0
  Ends p n o = (r : RecvReturn Net) × (o ≡ some r) × RecvSpec p n r

  -- The peer has closed: between two messages, or inside one.
  at_eof :
      (remaining : ℕ) (written p : List ℕ) (s t : Net) (n : ℕ)
      → interrupts t ≤ n
      → 0 < remaining
      → length written + remaining ≡ message_size
      → p ≡ written
      → Ends p n (after_recv (λ _ _ _. none) remaining written (bytes [], t))
  unfolding after_recv
  at_eof remaining [] p s t n few more sum e =
      let full : remaining ≡ message_size = omega arith in
      rw full (_, refl, record { outcome = (e, refl); fewer = few })
  at_eof remaining (w ∷ ws) p s t n few more sum e =
      let part : (remaining == message_size) ≡ false = ground arith in
      rw part (
        _,
        refl,
        record { outcome = inl (refl, rw e (omega arith), rw e (omega arith)); fewer = few },
      )

  -- One round: the answer `a` of the kernel, and what the next rounds do.
  after_recv-Ends :
      (again : ℕ → List ℕ → Net → Option (RecvReturn Net)) (fuel remaining : ℕ) (written p : List ℕ)
      (s : Net) (n : ℕ)
      → ((k : ℕ) (w : List ℕ) (t : Net)
          → k + interrupts t < fuel
          → interrupts t ≤ n
          → length w + k ≡ message_size
          → p ≡ w ++ pending t
          → Ends p n (again k w t))
      → remaining + interrupts s < suc fuel
      → interrupts s ≤ n
      → 0 < remaining
      → length written + remaining ≡ message_size
      → p ≡ written ++ pending s
      → (a : RecvResult × Net) → RecvOk pending interrupts Breaks s remaining a
      → Ends p n (after_recv again remaining written a)
  unfolding after_recv
  after_recv-Ends again fuel remaining written p s n ih enough few more sum e (bytes [], t) ok =
      at_eof remaining written p s t n (omega arith) more sum
        (e ∙ ap (◌++◌ written) ok.0 ∙ append-nil written)
  after_recv-Ends again fuel remaining written p s n ih enough few more sum e (bytes (b ∷ bs), t)
        ok =
      ih _ _ t (omega arith) (omega arith) (omega (arith, length-append written (b ∷ bs)))
        (e ∙ ap (◌++◌ written) ok.1 ∙ sym (append_assoc written (b ∷ bs) (pending t)))
  after_recv-Ends again fuel remaining written p s n ih enough few more sum e (error eintr, t) ok =
      ih _ _ t (omega arith) (omega arith) sum (e ∙ ap (◌++◌ written) (sym ok.0))
  after_recv-Ends again fuel remaining written p s n ih enough few more sum e (error econnreset, t)
        ok =
      (_, refl, record { outcome = inr ok.0; fewer = omega arith })
  after_recv-Ends again fuel remaining written p s n ih enough few more sum e (error epipe, t) ok =
      (_, refl, record { outcome = inr ok.0; fewer = omega arith })
  after_recv-Ends again fuel remaining written p s n ih enough few more sum e (error (other c), t)
        ok =
      (_, refl, record { outcome = inr ok.0; fewer = omega arith })

  module _ (recv : Net → ℕ → RecvResult × Net) where
    recv_loop-Ends :
        ((s : Net) (n : ℕ) → 0 < n → RecvOk pending interrupts Breaks s n (recv s n))
        → (fuel remaining : ℕ) (written p : List ℕ) (s : Net) (n : ℕ)
        → remaining + interrupts s < fuel
        → interrupts s ≤ n
        → length written + remaining ≡ message_size
        → p ≡ written ++ pending s
        → Ends p n (recv_loop recv fuel remaining written s)
    unfolding recv_loop
    recv_loop-Ends law zero remaining written p s n enough few sum e = absurd (omega arith)
    recv_loop-Ends law (suc fuel) remaining written p s n enough few sum e =
        elim (Bool-cases (ltb 0 remaining)) [
          | inl more ↦ rw more (
              after_recv-Ends (recv_loop recv fuel) fuel remaining written p s n
                (λ k w t. recv_loop-Ends law fuel k w p t n) enough few (ltb→lt 0 remaining more)
                sum e (recv s remaining) (law s remaining (ltb→lt 0 remaining more)))
          | inr end ↦ rw end (_, refl, record { outcome = (ground arith, e); fewer = few })
        ]

-- Whatever pieces `recv` delivers and however often it is interrupted, enough rounds lead to a
-- return. Result 1 means that exactly the next four bytes of the stream were taken, result 0 that
-- the stream had ended before the message, and -1 that it ended within the message (ECONNRESET)
-- or that the connection broke.
pub protocol_recv_message_lem :
    {Net : Type 0} (pending : Net → List ℕ) (interrupts : Net → ℕ) (Breaks : Errno → Type 0)
    (recv : Net → ℕ → RecvResult × Net)
    → ((s : Net) (n : ℕ) → 0 < n → RecvOk pending interrupts Breaks s n (recv s n))
    → (s : Net) (fuel : ℕ) → message_size + interrupts s < fuel
    → (r : RecvReturn Net) × (protocol_recv_message recv fuel s ≡ some r)
      × RecvSpec pending interrupts Breaks (pending s) (interrupts s) r
unfolding protocol_recv_message
protocol_recv_message_lem pending interrupts Breaks recv law s fuel enough =
    recv_loop-Ends pending interrupts Breaks recv law fuel message_size [] (pending s) s
      (interrupts s) enough (omega arith) (omega arith) refl

-- A list with a front of known length is split in one way.
append-cancel : (a b c d : List ℕ) → length a ≡ length b → a ++ c ≡ b ++ d → (a ≡ b) × (c ≡ d)
append-cancel [] [] c d h e = (refl, e)
append-cancel [] (y ∷ b) c d h e = absurd (omega arith)
append-cancel (x ∷ a) [] c d h e = absurd (omega arith)
append-cancel (x ∷ a) (y ∷ b) c d h e =
    let (front, back) = append-cancel a b c d (omega arith) (cc) in (cc, back)

module _ {Net : Type 0} (pending : Net → List ℕ) (interrupts : Net → ℕ) where
  -- On a connection that does not break, a message that was sent whole is received whole, and what
  -- was sent after it stays in the stream.
  abbrev pub Received : Message → List ℕ → ℕ → Option (RecvReturn Net) → Type 0
  Received m rest n o =
      (t : Net) × (o ≡ some (record { result = complete; written = encode m; net = t }))
      × (pending t ≡ rest)
      × (interrupts t ≤ n)

  received :
      (m : Message) (rest : List ℕ) (n : ℕ) (o : Option (RecvReturn Net)) (r : RecvEnd) (w : List ℕ)
      (t : Net)
      → o ≡ some (record { result = r; written = w; net = t })
      → RecvSpec pending interrupts
          (λ _. ⊥)
          (encode m ++ rest)
          n
          (record { result = r; written = w; net = t })
      → Received m rest n o
  received m rest n o complete w t e spec =
      let (same, left) =
        append-cancel (encode m) w rest (pending t) (omega (arith, spec.outcome.0, length-encode m))
          spec.outcome.1 in
      (t, rw same e, sym left, spec.fewer)
  received m rest n o closed w t e spec =
      absurd
        (omega (arith, ap length spec.outcome.0, length-append (encode m) rest, length-encode m))
  received m rest n o (failed x) w t e spec = elim spec.outcome [
    | inl cut ↦ absurd (omega (arith, cut.2, length-append (encode m) rest, length-encode m))
    | inr broken ↦ absurd broken
  ]

  -- On a connection that does not break, a message that the peer sent is received whole, in
  -- whatever pieces it comes, and what was sent behind it stays in the stream.
  pub recv-encode :
      (recv : Net → ℕ → RecvResult × Net)
      → ((s : Net) (n : ℕ) → 0 < n → RecvOk pending interrupts (λ _. ⊥) s n (recv s n))
      → (m : Message) (rest : List ℕ) (s : Net) (fuel : ℕ) → message_size + interrupts s < fuel
      → pending s ≡ encode m ++ rest
      → Received m rest (interrupts s) (protocol_recv_message recv fuel s)
  recv-encode recv law m rest s fuel enough e =
      let (r, returns, spec) =
        protocol_recv_message_lem pending interrupts (λ _. ⊥) recv law s fuel enough in
      received m rest (interrupts s) _ r.result r.written r.net returns
        (subst (λ p. RecvSpec pending interrupts (λ _. ⊥) p (interrupts s) r) e spec)

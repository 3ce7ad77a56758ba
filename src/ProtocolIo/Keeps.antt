-- ===== src/ProtocolIo/Keeps.antt =====
-- What the two functions of common/protocol_io.c leave alone, because the calls that they make do.
use linux_veda_4sensor_tcp_c.Prelude.{
  ℕ, zero, suc, ◌≡◌, refl, ◌∙◌, inl, inr, ltb, Bool-cases, Option, some, List, [], ◌∷◌, length,
  arith,
}
use linux_veda_4sensor_tcp_c.Protocol.{Message}
use linux_veda_4sensor_tcp_c.Protocol.Codec.{message_size, encode}
use linux_veda_4sensor_tcp_c.ProtocolIo.Defs.{eintr}
use linux_veda_4sensor_tcp_c.ProtocolIo.Recv.{
  RecvResult, RecvReturn, after_recv, recv_loop, protocol_recv_message,
}
use linux_veda_4sensor_tcp_c.ProtocolIo.Send.{
  SendResult, SendEnd, sent, after_send, send_loop, protocol_send_message,
}

module _ {Net : Type 0} (view : Net → List ℕ) where
  after_recv-keeps :
      (again : ℕ → List ℕ → Net → Option (RecvReturn Net)) (v : List ℕ)
      → ((k : ℕ) (w : List ℕ) (s : Net) (r : RecvReturn Net)
          → again k w s ≡ some r
          → view s ≡ v
          → view r.net ≡ v)
      → (remaining : ℕ) (written : List ℕ) (a : RecvResult × Net) (r : RecvReturn Net)
      → view a.1 ≡ v
      → after_recv again remaining written a ≡ some r
      → view r.net ≡ v
  unfolding after_recv
  after_recv-keeps again v ih n w (RecvResult.bytes (b ∷ bs), s) r q e = ih _ _ s r e q
  after_recv-keeps again v ih n w (RecvResult.bytes [], s) r q e = ground arith
  after_recv-keeps again v ih n w (RecvResult.error eintr, s) r q e = ih _ _ s r e q
  after_recv-keeps again v ih n w (RecvResult.error x, s) r q e = ground arith

  module _ (recv : Net → ℕ → RecvResult × Net)
      (quiet : (s : Net) (n : ℕ) → view (recv s n).1 ≡ view s) where
    recv_loop-keeps :
        (fuel : ℕ) (v : List ℕ) (n : ℕ) (w : List ℕ) (s : Net) (r : RecvReturn Net)
        → recv_loop recv fuel n w s ≡ some r
        → view s ≡ v
        → view r.net ≡ v
    unfolding recv_loop
    recv_loop-keeps zero v n w s r e q = cc
    recv_loop-keeps (suc fuel) v n w s r e q = elim (Bool-cases (ltb 0 n)) [
      | inl more ↦
          after_recv-keeps (recv_loop recv fuel) v (recv_loop-keeps fuel v) n w (recv s n) r
            (quiet s n ∙ q) (rw more at e)
      | inr end ↦ ground (arith, end)
    ]

    pub protocol_recv_message-keeps :
        (fuel : ℕ) (s : Net) (r : RecvReturn Net)
        → protocol_recv_message recv fuel s ≡ some r
        → view r.net ≡ view s
    unfolding protocol_recv_message
    protocol_recv_message-keeps fuel s r e =
        recv_loop-keeps fuel (view s) message_size [] s r e refl

  after_send-keeps :
      (again : List ℕ → Net → Option (SendEnd × Net)) (v : List ℕ)
      → ((bs : List ℕ) (s : Net) (r : SendEnd) (t : Net)
          → again bs s ≡ some (r, t)
          → view s ≡ v
          → view t ≡ v)
      → (bs : List ℕ) (a : SendResult × Net) (r : SendEnd) (t : Net) → view a.1 ≡ v
      → after_send again bs a ≡ some (r, t)
      → view t ≡ v
  unfolding after_send
  after_send-keeps again v ih bs (sent (suc n), s) r t q e = ih _ s r t e q
  after_send-keeps again v ih bs (sent zero, s) r t q e = ground arith
  after_send-keeps again v ih bs (SendResult.error eintr, s) r t q e = ih _ s r t e q
  after_send-keeps again v ih bs (SendResult.error x, s) r t q e = ground arith

  module _ (send : Net → List ℕ → SendResult × Net)
      (quiet : (s : Net) (bs : List ℕ) → view (send s bs).1 ≡ view s) where
    send_loop-keeps :
        (fuel : ℕ) (v bs : List ℕ) (s : Net) (r : SendEnd) (t : Net)
        → send_loop send fuel bs s ≡ some (r, t)
        → view s ≡ v
        → view t ≡ v
    unfolding send_loop
    send_loop-keeps zero v bs s r t e q = cc
    send_loop-keeps (suc fuel) v bs s r t e q = elim (Bool-cases (ltb 0 (length bs))) [
      | inl more ↦
          after_send-keeps (send_loop send fuel) v (send_loop-keeps fuel v) bs (send s bs) r t
            (quiet s bs ∙ q) (rw more at e)
      | inr end ↦ ground (arith, end)
    ]

    pub protocol_send_message-keeps :
        (fuel : ℕ) (m : Message) (s : Net) (r : SendEnd) (t : Net)
        → protocol_send_message send fuel m s ≡ some (r, t)
        → view t ≡ view s
    unfolding protocol_send_message
    protocol_send_message-keeps fuel m s r t e =
        send_loop-keeps fuel (view s) (encode m) s r t e refl

-- ===== src/ProtocolIo/Recv.antt =====
-- protocol_recv_message of common/protocol_io.c. The length of `written` is the offset of `cursor`.
use linux_veda_4sensor_tcp_c.Prelude.{
  ℕ, zero, suc, ◌-◌, if◌then◌else◌, ltb, ◌==◌, Option, none, some, List, [], ◌∷◌, ◌++◌, length,
}
use linux_veda_4sensor_tcp_c.Protocol.Codec.{message_size}
use linux_veda_4sensor_tcp_c.ProtocolIo.Defs.{Errno, eintr, econnreset}

-- `recv` returns the bytes it stored (none when the peer has closed), or -1 with an `errno`.
pub data RecvResult : Type 0 where
  bytes : List ℕ → RecvResult
  error : Errno → RecvResult

-- The results 1, 0 and -1 of `protocol_recv_message`, the last with its `errno`.
pub data RecvEnd : Type 0 where
  complete closed : RecvEnd
  failed : Errno → RecvEnd

-- A return: the result, the bytes of `*message` written so far, and the socket after it.
pub record RecvReturn (Net : Type 0) : Type 0 where
  pub result : RecvEnd
  pub written : List ℕ
  pub net : Net

module _ {Net : Type 0} where
  abbrev returning : RecvEnd → List ℕ → Net → Option (RecvReturn Net)
  returning e w s = some (record { result = e; written = w; net = s })

  -- The body of the loop behind the call of `recv`; `again` is the next round.
  unfoldable pub after_recv :
      (ℕ → List ℕ → Net → Option (RecvReturn Net))
      → ℕ
      → List ℕ
      → RecvResult × Net
      → Option (RecvReturn Net)
  after_recv again remaining written (bytes (b ∷ bs), s) =
      again (remaining - length (b ∷ bs)) (written ++ b ∷ bs) s
  after_recv again remaining written (bytes [], s) =
      if remaining == message_size
      then returning closed written s
      else returning (failed econnreset) written s
  after_recv again remaining written (error eintr, s) = again remaining written s
  after_recv again remaining written (error e, s) = returning (failed e) written s

  unfoldable pub recv_loop :
      (Net → ℕ → RecvResult × Net) → ℕ → ℕ → List ℕ → Net → Option (RecvReturn Net)
  unfolding after_recv
  recv_loop recv zero remaining written s = none
  recv_loop recv (suc fuel) remaining written s =
      if ltb 0 remaining
      then after_recv (recv_loop recv fuel) remaining written (recv s remaining)
      else returning complete written s

  unfoldable pub protocol_recv_message :
      (Net → ℕ → RecvResult × Net) → ℕ → Net → Option (RecvReturn Net)
  unfolding recv_loop
  protocol_recv_message recv fuel s = recv_loop recv fuel message_size [] s

-- ===== src/ProtocolIo/Send.antt =====
-- protocol_send_message of common/protocol_io.c. The bytes from `cursor` on are the list that is
-- left to send, and `remaining` is its length.
use linux_veda_4sensor_tcp_c.Prelude.{
  ℕ, zero, suc, if◌then◌else◌, ltb, Option, none, some, List, length, drop,
}
use linux_veda_4sensor_tcp_c.Protocol.{Message}
use linux_veda_4sensor_tcp_c.Protocol.Codec.{encode}
use linux_veda_4sensor_tcp_c.ProtocolIo.Defs.{Errno, eintr, epipe}

-- `send` returns the number of bytes taken, or -1 with an `errno`.
pub data SendResult : Type 0 where
  sent : ℕ → SendResult
  error : Errno → SendResult

-- The results 0 and -1 of `protocol_send_message`, the latter with its `errno`.
pub data SendEnd : Type 0 where
  delivered : SendEnd
  failed : Errno → SendEnd

module _ {Net : Type 0} where
  -- The body of the loop behind the call of `send`; `again` is the next round.
  unfoldable pub after_send :
      (List ℕ → Net → Option (SendEnd × Net)) → List ℕ → SendResult × Net → Option (SendEnd × Net)
  after_send again left (sent (suc n), s) = again (drop (suc n) left) s
  after_send again left (sent zero, s) = some (failed epipe, s)
  after_send again left (error eintr, s) = again left s
  after_send again left (error e, s) = some (failed e, s)

  unfoldable pub send_loop :
      (Net → List ℕ → SendResult × Net) → ℕ → List ℕ → Net → Option (SendEnd × Net)
  unfolding after_send
  send_loop send zero left s = none
  send_loop send (suc fuel) left s =
      if ltb 0 (length left)
      then after_send (send_loop send fuel) left (send s left)
      else some (delivered, s)

  unfoldable pub protocol_send_message :
      (Net → List ℕ → SendResult × Net) → ℕ → Message → Net → Option (SendEnd × Net)
  unfolding send_loop encode
  protocol_send_message send fuel m s = send_loop send fuel (encode m) s

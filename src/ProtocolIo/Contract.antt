-- ===== src/ProtocolIo/Contract.antt =====
-- What common/protocol_io.c relies on in the kernel, as hypotheses on `recv` and `send`.
-- `pending s` is what the peer has sent and nobody has read yet, `accepted s` all that the kernel
-- has taken to send so far; `interrupts s` bounds the interruptions by signals still to come, and
-- `Breaks e` says that the connection may break with `errno` e.
use linux_veda_4sensor_tcp_c.Prelude.{ℕ, ◌<◌, ◌≤◌, ◌≡◌, List, [], ◌∷◌, ◌++◌, length, take}
use linux_veda_4sensor_tcp_c.ProtocolIo.Defs.{Errno, eintr}
use linux_veda_4sensor_tcp_c.ProtocolIo.Recv.{RecvResult}
use linux_veda_4sensor_tcp_c.ProtocolIo.Send.{SendResult}

module _ {Net : Type 0} (pending : Net → List ℕ) (interrupts : Net → ℕ)
    (Breaks : Errno → Type 0) where
  -- An answer to `recv(fd, cursor, n, 0)` with n > 0.
  abbrev pub RecvOk : Net → ℕ → RecvResult × Net → Type 0
  RecvOk s n (RecvResult.bytes [], s') =
      (pending s ≡ []) × (pending s' ≡ []) × (interrupts s' ≤ interrupts s)
  RecvOk s n (RecvResult.bytes (b ∷ bs), s') =
      (length (b ∷ bs) ≤ n) × (pending s ≡ (b ∷ bs) ++ pending s') × (interrupts s' ≤ interrupts s)
  RecvOk s n (RecvResult.error eintr, s') =
      (pending s' ≡ pending s) × (interrupts s' < interrupts s)
  RecvOk s n (RecvResult.error e, s') = Breaks e × (interrupts s' ≤ interrupts s)

module _ {Net : Type 0} (accepted : Net → List ℕ) (interrupts : Net → ℕ)
    (Breaks : Errno → Type 0) where
  -- An answer to `send(fd, cursor, n, MSG_NOSIGNAL)` with n > 0: it takes at least a byte.
  abbrev pub SendOk : Net → List ℕ → SendResult × Net → Type 0
  SendOk s bs (SendResult.sent n, s') =
      (0 < n)
      × (n ≤ length bs)
      × (accepted s' ≡ accepted s ++ take n bs)
      × (interrupts s' ≤ interrupts s)
  SendOk s bs (SendResult.error eintr, s') =
      (accepted s' ≡ accepted s) × (interrupts s' < interrupts s)
  SendOk s bs (SendResult.error e, s') =
      Breaks e × (accepted s' ≡ accepted s) × (interrupts s' ≤ interrupts s)

-- A call of `send` that takes at once all it is given.
abbrev pub Whole : ℕ → List ℕ → Type 0
Whole n bs = n ≡ length bs

-- ===== src/Server/Traffic.antt =====
-- The threads of server/ that send on one socket: the one of the client in `send_response` of
-- server/handler.c, and all that call `broadcast_msg` of server/main.c, on copies of the descriptor.
-- No lock is held over the loop of `protocol_send_message`.
use linux_veda_4sensor_tcp_c.Prelude.{
  ℕ, ◌≤◌, ◌<◌, ◌≡◌, some, List, [], ◌∷◌, ◌++◌, All, length, take, drop, get_elem?, put,
}
use linux_veda_4sensor_tcp_c.Protocol.{Message}
use linux_veda_4sensor_tcp_c.Protocol.Codec.{encode}

-- A thread, with what its loop has left to send, and the messages that it sends after that.
pub record Sender : Type 0 where
  pub sending : List ℕ
  pub queue : List Message

abbrev pub Silent : Sender → Type 0
Silent s = (s.sending ≡ []) × (s.queue ≡ [])

-- `out` is what the socket has taken. A thread calls `protocol_send_message` for its next message, or
-- calls `send` in the loop, which takes the first `n` bytes of what it is given, for which `Takes`
-- holds.
pub data Talk (Takes : ℕ → List ℕ → Type 0) : List Sender → List ℕ → List ℕ → Type 0 where
  over : {out : List ℕ} (ss : List Sender) → All Silent ss → Talk Takes ss out out
  begins :
      (i : ℕ) (m : Message) (ms : List Message) {ss : List Sender} {out final : List ℕ}
      → get_elem? ss i ≡ some (record { sending = []; queue = m ∷ ms })
      → Talk Takes (put i (record { sending = encode m; queue = ms }) ss) out final
      → Talk Takes ss out final
  sends :
      (i n : ℕ) (bs : List ℕ) (ms : List Message) {ss : List Sender} {out final : List ℕ}
      → get_elem? ss i ≡ some (record { sending = bs; queue = ms })
      → 0 < n
      → n ≤ length bs
      → Takes n bs
      → Talk Takes (put i (record { sending = drop n bs; queue = ms }) ss) (out ++ take n bs) final
      → Talk Takes ss out final

-- The threads before they send anything of these messages.
abbrev pub senders : List (List Message) → List Sender
senders [] = []
senders (ms ∷ mss) = record { sending = []; queue = ms } ∷ senders mss

-- The last is a merge of the others: each time the first message of one of them, until all are empty.
pub data Merged : List (List Message) → List Message → Type 0 where
  nothing : (mss : List (List Message)) → All (λ ms. ms ≡ []) mss → Merged mss []
  first :
      (i : ℕ) (m : Message) (ms ns : List Message) {mss : List (List Message)}
      → get_elem? mss i ≡ some (m ∷ ms)
      → Merged (put i ms mss) ns
      → Merged mss (m ∷ ns)

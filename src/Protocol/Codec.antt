-- ===== src/Protocol/Codec.antt =====
-- The four bytes of a `Message` in memory, which common/protocol_io.c sends and receives as they
-- lie: the fields in order, with no padding (`_Static_assert` of include/protocol.h).
use linux_veda_4sensor_tcp_c.Prelude.{
  ℕ, ◌≡◌, refl, Option, none, some, List, [], ◌∷◌, length, arith,
}
use linux_veda_4sensor_tcp_c.Protocol.{Message, message}

abbrev pub message_size : ℕ
message_size = 4

unfoldable pub encode : Message → List ℕ
encode m = m.type ∷ m.device ∷ m.action ∷ m.value ∷ []

-- The message that four bytes of memory are.
unfoldable pub decode : List ℕ → Option Message
decode (t ∷ d ∷ a ∷ v ∷ []) = some (message t d a v)
decode _ = none

pub decode-encode : (m : Message) → decode (encode m) ≡ some m
unfolding decode encode
decode-encode m = refl

pub length-encode : (m : Message) → length (encode m) ≡ message_size
unfolding encode
length-encode m = refl

-- Four bytes are a message.
pub decode_total : (bs : List ℕ) → length bs ≡ message_size → (m : Message) × (bs ≡ encode m)
unfolding encode
decode_total (t ∷ d ∷ a ∷ v ∷ []) h = (message t d a v, refl)
decode_total [] h = cc
decode_total (t ∷ []) h = absurd (omega arith)
decode_total (t ∷ d ∷ []) h = absurd (omega arith)
decode_total (t ∷ d ∷ a ∷ []) h = absurd (omega arith)
decode_total (t ∷ d ∷ a ∷ v ∷ x ∷ r) h = absurd (omega arith)

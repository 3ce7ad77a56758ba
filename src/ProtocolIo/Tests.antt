-- ===== src/ProtocolIo/Tests.antt =====
-- The runs of tests/test_protocol_io.c on a scripted connection.
use linux_veda_4sensor_tcp_c.Prelude.{◌≤◌, ◌≡◌, refl, some, [], ◌∷◌, arith}
use linux_veda_4sensor_tcp_c.Protocol.{
  Message, message, msg_cmd, msg_query, dev_led, dev_sensor, act_set_brightness, act_get_lux,
  brightness_high,
}
use linux_veda_4sensor_tcp_c.Protocol.Codec.{encode}
use linux_veda_4sensor_tcp_c.ProtocolIo.Defs.{econnreset}
use linux_veda_4sensor_tcp_c.ProtocolIo.Recv.{RecvEnd, RecvReturn, closed, protocol_recv_message}
use linux_veda_4sensor_tcp_c.ProtocolIo.Send.{SendEnd, delivered, protocol_send_message}
use linux_veda_4sensor_tcp_c.ProtocolIo.Scripted.{
  Wire, still, scripted_recv, scripted_recv-RecvOk, scripted_send, scripted_send-SendOk,
}
use linux_veda_4sensor_tcp_c.ProtocolIo.RecvLaws
use linux_veda_4sensor_tcp_c.ProtocolIo.RecvLaws.{protocol_recv_message_lem, recv-encode}
use linux_veda_4sensor_tcp_c.ProtocolIo.SendLaws
use linux_veda_4sensor_tcp_c.ProtocolIo.SendLaws.{protocol_send_message_lem}

abbrev bright : Message
bright = message msg_cmd dev_led act_set_brightness brightness_high

-- `test_fragmented_receive`, with an interruption behind the first byte: pieces of 1, 2 and 1.
abbrev fragmented : Wire
fragmented = record { stream = 1 ∷ 1 ∷ 3 ∷ 3 ∷ 4 ∷ 3 ∷ []; cuts = 1 ∷ 0 ∷ 2 ∷ 1 ∷ [] }

recv-encode_example :
    RecvLaws.Received
      (λ w. w.stream)
      still
      bright
      (4 ∷ 3 ∷ [])
      1
      (protocol_recv_message scripted_recv 6 fragmented)
recv-encode_example =
    recv-encode (λ w. w.stream) still scripted_recv scripted_recv-RecvOk bright (4 ∷ 3 ∷ [])
      fragmented 6 (omega arith) (unfold encode in refl)

-- `test_truncated_message`: two bytes and the end.
abbrev truncated : Wire
truncated = record { stream = 1 ∷ 1 ∷ []; cuts = [] }

test_truncated_message :
    protocol_recv_message scripted_recv 3 truncated
    ≡ some (record {
      result = RecvEnd.failed econnreset;
      written = 1 ∷ 1 ∷ [];
      net = record { stream = []; cuts = [] };
    })
unfolding protocol_recv_message
test_truncated_message = refl

protocol_recv_message_lem_example :
    (r : RecvReturn Wire) × (protocol_recv_message scripted_recv 5 truncated ≡ some r)
    × RecvLaws.RecvSpec (λ w. w.stream) still (λ _. ⊥) (1 ∷ 1 ∷ []) 0 r
protocol_recv_message_lem_example =
    protocol_recv_message_lem (λ w. w.stream) still (λ _. ⊥) scripted_recv scripted_recv-RecvOk
      truncated 5 (omega arith)

-- `test_clean_eof`.
test_clean_eof :
    protocol_recv_message scripted_recv 2 (record { stream = []; cuts = [] })
    ≡ some (record { result = closed; written = []; net = record { stream = []; cuts = [] } })
unfolding protocol_recv_message
test_clean_eof = refl

abbrev lux_query : Message
lux_query = message msg_query dev_sensor act_get_lux 0

protocol_send_message_lem_example :
    (r : SendEnd) × (t : Wire) × (protocol_send_message scripted_send 6 lux_query
        (record { stream = 9 ∷ []; cuts = 3 ∷ 0 ∷ [] })
      ≡ some (r, t))
    × SendLaws.Outcome (λ w. w.stream) still (λ _. ⊥) (9 ∷ []) (encode lux_query) r t
    × (still t ≤ 1)
protocol_send_message_lem_example =
    protocol_send_message_lem (λ w. w.stream) still (λ _. ⊥) scripted_send scripted_send-SendOk
      lux_query (record { stream = 9 ∷ []; cuts = 3 ∷ 0 ∷ [] }) 6 (omega arith)

-- `test_round_trip`: what is sent in pieces is received in pieces.
test_round_trip :
    protocol_send_message scripted_send 6 lux_query (record { stream = []; cuts = 3 ∷ 0 ∷ [] })
    ≡ some (delivered, record { stream = 4 ∷ 3 ∷ 8 ∷ 0 ∷ []; cuts = [] })
unfolding protocol_send_message
test_round_trip = refl

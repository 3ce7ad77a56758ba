-- ===== src/Gateway/Tests.antt =====
-- The gateway of web/ on concrete inputs; the first are those of web/test/protocol.test.js.
use linux_veda_4sensor_tcp_c.Prelude.{
  ℕ, ◌≡◌, refl, true, false, pos, some, List, [], ◌∷◌, ◌++◌, map, arith, take, drop,
}
use linux_veda_4sensor_tcp_c.Process.Text.{bytes_of}
use linux_veda_4sensor_tcp_c.Protocol.{
  Message, message, msg_event, msg_resp, dev_led, dev_sensor, dev_segment, act_on, act_set_number,
  evt_intrusion, evt_countdown, resp_ok,
}
use linux_veda_4sensor_tcp_c.Protocol.Codec.{encode}
use linux_veda_4sensor_tcp_c.Server.State.{Env, cancelled}
use linux_veda_4sensor_tcp_c.Server.Accept.{initial_world}
use linux_veda_4sensor_tcp_c.Server.SessionLaws.{stream}
use linux_veda_4sensor_tcp_c.ProtocolIo.Contract.{Whole}
use linux_veda_4sensor_tcp_c.Server.Traffic.{Talk, over, begins, sends, senders, Merged}
use linux_veda_4sensor_tcp_c.Gateway.Frames.{
  other, byte, buffer, type_error, range_error, encode_message, decode_frames, command_message,
}
use linux_veda_4sensor_tcp_c.Gateway.FrameLaws.{Served, command_message-Served}
use linux_veda_4sensor_tcp_c.Gateway.Bridge.{Gateway, closed, came, timer_fires, run, started}
use linux_veda_4sensor_tcp_c.Gateway.BridgeLaws.{notices, concat, gateway_tells}
use linux_veda_4sensor_tcp_c.Gateway.AliveLaws.{Alive, run-Alive}

two_frames :
    decode_frames (2 ∷ 3 ∷ 1 ∷ 0 ∷ 3 ∷ 1 ∷ 1 ∷ 0 ∷ [])
    ≡ (message msg_event dev_sensor evt_intrusion 0 ∷ message msg_resp dev_led act_on 0 ∷ [], [])
unfolding decode_frames
two_frames = refl

part_of_frame : decode_frames (2 ∷ 3 ∷ 1 ∷ []) ≡ ([], 2 ∷ 3 ∷ 1 ∷ [])
unfolding decode_frames
part_of_frame = refl

nine : command_message (bytes_of "segment") (byte 9) ≡ buffer (1 ∷ 4 ∷ 4 ∷ 9 ∷ [])
unfolding command_message encode_message
nine = refl

no_zero : command_message (bytes_of "segment") (byte 0) ≡ range_error
unfolding command_message
no_zero = refl

no_text : command_message (bytes_of "segment") other ≡ range_error
unfolding command_message
no_text = refl

unknown_command : command_message (bytes_of "destroy_everything") other ≡ range_error
unfolding command_message
unknown_command = refl

inherited_name : command_message (bytes_of "constructor") other ≡ type_error
unfolding command_message
inherited_name = refl

too_large : encode_message (byte 1 ∷ byte 1 ∷ byte 1 ∷ byte 256 ∷ []) ≡ range_error
unfolding encode_message
too_large = refl

abbrev well : Env
well = record {
  create_melody = 0;
  create_segment = 0;
  melody_end = cancelled;
  dup = λ fd. fd;
  transfers = record { write = pos 0; stale = pos 0; fresh = pos 0 };
}

command_message-Served_example :
    (m : Message) × ((1 ∷ 4 ∷ 4 ∷ 9 ∷ []) ≡ encode m) × Served well m initial_world
command_message-Served_example =
    command_message-Served (bytes_of "segment") (byte 9) (1 ∷ 4 ∷ 4 ∷ 9 ∷ []) well initial_world
      nine refl refl

abbrev ok : Message
ok = message msg_resp dev_segment act_set_number resp_ok

abbrev three : Message
three = message msg_event dev_segment evt_countdown 3

abbrev both : List ℕ
both = stream (three ∷ ok ∷ [])

talking : Talk Whole (senders ((ok ∷ []) ∷ (three ∷ []) ∷ [])) [] both
unfolding encode
talking = begins 1 three [] refl (
    sends 1 4 (encode three) [] refl (omega arith) (omega arith) refl (
      begins 0 ok [] refl (
        sends 0 4 (encode ok) [] refl (omega arith) (omega arith) refl
          (over _ ((refl, refl), ((refl, refl), tt))))))

gateway_tells_example :
    (ms : List Message) × Merged ((ok ∷ []) ∷ (three ∷ []) ∷ []) ms
    × ((run (map (came 0) (take 3 both ∷ drop 3 both ∷ [])) started).outputs
        ≡ started.outputs ++ notices ms)
    × ((run (map (came 0) (take 3 both ∷ drop 3 both ∷ [])) started).tcp_buffer ≡ [])
unfolding encode started concat
gateway_tells_example =
    gateway_tells ((ok ∷ []) ∷ (three ∷ []) ∷ []) both 0 (take 3 both ∷ drop 3 both ∷ []) started
      talking refl refl refl

-- The connection is lost and made again; bytes of the old socket are then ignored.
run-Alive_example : Alive (run (closed 0 ∷ timer_fires ∷ came 0 (2 ∷ []) ∷ []) started)
run-Alive_example = run-Alive (closed 0 ∷ timer_fires ∷ came 0 (2 ∷ []) ∷ [])

abbrev ready : Gateway
ready = record {
  tcp = some 0;
  is_open = true;
  tcp_buffer = [];
  timer = false;
  sockets = 1;
  browsers = 7 ∷ [];
  outputs = [];
}

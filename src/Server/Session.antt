-- ===== src/Server/Session.antt =====
-- handle_client of server/handler.c, from the connection to its end.
use linux_veda_4sensor_tcp_c.Prelude.{ℕ, zero, suc, ℤ, Option, none, some, List}
use linux_veda_4sensor_tcp_c.Protocol.{Message}
use linux_veda_4sensor_tcp_c.Protocol.Codec.{decode}
use linux_veda_4sensor_tcp_c.ProtocolIo.Recv.{
  RecvResult, RecvEnd, complete, closed, failed, RecvReturn, protocol_recv_message,
}
use linux_veda_4sensor_tcp_c.ProtocolIo.Send.{SendResult, SendEnd, protocol_send_message}
use linux_veda_4sensor_tcp_c.Server.State.{World, Env}
use linux_veda_4sensor_tcp_c.Server.Commands.{respond}
use linux_veda_4sensor_tcp_c.Server.Accept.{end_client}

-- The request that the loop's test finds: none if the result is not 1.
abbrev pub request_of : RecvEnd → List ℕ → Option Message
request_of complete bytes = decode bytes
request_of closed bytes = none
request_of (failed e) bytes = none

-- `recv`, `send` and the fuel of their loops; for the requests in order, what the system answers
-- while they are served, what the other threads do before each, and what their `broadcast_msg` sends
-- on copies of this client's descriptor does to the connection.
module _ {Net : Type 0} (recv : Net → ℕ → RecvResult × Net) (send : Net → List ℕ → SendResult × Net)
    (io_fuel : ℕ) (envs : ℕ → Env) (others : ℕ → World → World) (broadcasts : ℕ → Net → Net)
    (cfd : ℤ) where
  -- `send_response`, and the next round behind it: a send that fails is only reported.
  abbrev on_sent :
      (Net → World → Option (Net × World)) → Option (SendEnd × Net) → World → Option (Net × World)
  on_sent again none w = none
  on_sent again (some (e, net)) w = again net w

  -- The body of the loop behind its test.
  abbrev serve :
      (Net → World → Option (Net × World))
      → Env
      → Option Message
      → Net
      → World
      → Option (Net × World)
  serve again env none net w = some (net, end_client cfd w)
  serve again env (some m) net w =
      let (response, w₁) = respond env m w in
      on_sent again (protocol_send_message send io_fuel response net) w₁

  abbrev on_received :
      (Net → World → Option (Net × World))
      → Env
      → Option (RecvReturn Net)
      → World
      → Option (Net × World)
  on_received again env none w = none
  on_received again env (some r) w = serve again env (request_of r.result r.written) r.net w

  -- The requests from number `i` on.
  unfoldable pub handle_client : ℕ → ℕ → Net → World → Option (Net × World)
  handle_client zero i net w = none
  handle_client (suc fuel) i net w =
      on_received (handle_client fuel (suc i)) (envs i)
        (protocol_recv_message recv io_fuel (broadcasts i net)) (others i w)

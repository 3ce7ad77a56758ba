-- ===== src/Client/Receiver.antt =====
-- recv_thread_fn of client/main.c.
use linux_veda_4sensor_tcp_c.Prelude.{ℕ, zero, suc, Option, none, some, List, [], ◌∷◌, ◌++◌}
use linux_veda_4sensor_tcp_c.Protocol.{Message}
use linux_veda_4sensor_tcp_c.ProtocolIo.Recv.{RecvResult, RecvReturn, protocol_recv_message}
use linux_veda_4sensor_tcp_c.Server.Session.{request_of}
use linux_veda_4sensor_tcp_c.Client.Display.{Line, display}

-- What the thread prints: the line for a message, and its last words.
pub data Output : Type 0 where
  line : Line → Output
  connection_lost : Output

-- The body of the loop; oldest first.
abbrev pub show : Option Line → List Output → List Output
show (some l) out = out ++ line l ∷ []
show none out = out

module _ {Net : Type 0} (recv : Net → ℕ → RecvResult × Net) (io_fuel : ℕ) where
  -- Behind the loop's test, which finds a message if the result is 1.
  abbrev pub on_message :
      (Net → List Output → Option (Net × List Output))
      → Option Message
      → Net
      → List Output
      → Option (Net × List Output)
  on_message again none net out = some (net, out ++ connection_lost ∷ [])
  on_message again (some m) net out = again net (show (display m) out)

  abbrev pub on_received :
      (Net → List Output → Option (Net × List Output))
      → Option (RecvReturn Net)
      → List Output
      → Option (Net × List Output)
  on_received again none out = none
  on_received again (some r) out = on_message again (request_of r.result r.written) r.net out

  unfoldable pub recv_thread_fn : ℕ → Net → List Output → Option (Net × List Output)
  recv_thread_fn zero net out = none
  recv_thread_fn (suc fuel) net out =
      on_received (recv_thread_fn fuel) (protocol_recv_message recv io_fuel net) out

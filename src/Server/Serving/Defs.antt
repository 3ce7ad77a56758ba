-- ===== src/Server/Serving/Defs.antt =====
-- The agreement of the client table, its counter and the client threads of server/.
use linux_veda_4sensor_tcp_c.Prelude.{◌+◌, ◌≡◌, ℤ, pos, List, length}
use linux_veda_4sensor_tcp_c.Server.State.{World}
use linux_veda_4sensor_tcp_c.Server.Clients.{max_clients}
use linux_veda_4sensor_tcp_c.Server.ClientLaws.{registered, count}

-- `opened` are the descriptors that `accept` has returned.
pub record Serves (opened : List ℤ) (w : World) : Type 0 where
  pub slots : length w.state.client_fds ≡ max_clients
  pub counter : w.state.n_clients ≡ pos (length (registered w.state.client_fds))
  pub threads : length w.handlers ≡ length (registered w.state.client_fds)
  pub same : (f : ℤ) → count f (registered w.state.client_fds) ≡ count f w.handlers
  pub kept : (f : ℤ) → count f opened ≡ count f w.handlers + count f w.closed

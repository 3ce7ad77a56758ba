-- ===== src/Server/Boot/Listener.antt =====
-- setup_server of server/main.c.
use linux_veda_4sensor_tcp_c.Prelude.{ℕ, ℤ, is_neg, if◌then◌else◌, List}
use linux_veda_4sensor_tcp_c.Process.{
  socket, set_reuse_address, bind, listen, close, report, Kernel, Action, call, pure, fail, exit,
  exit_failure, ◌>>=◌, ◌>>◌,
}
use linux_veda_4sensor_tcp_c.Process.Text.{bytes_of}
use linux_veda_4sensor_tcp_c.Server.Clients.{max_clients}

abbrev pub port_number : ℕ
port_number = 8080

-- The three lines for a call that failed when the socket was there.
abbrev pub give_up : Kernel → List ℕ → ℤ → Action ℤ
give_up kernel name sfd = do call kernel (report name); call kernel (close sfd); exit exit_failure

-- Behind the first call; an `int` that is not negative is a descriptor.
abbrev pub prepare : Kernel → ℕ → ℤ → Action ℤ
prepare kernel port sfd = do
  reused ← call kernel (set_reuse_address sfd)
  if is_neg reused then give_up kernel (bytes_of "setsockopt") sfd else do
    bound ← call kernel (bind sfd port)
    if is_neg bound then give_up kernel (bytes_of "bind") sfd else do
      listening ← call kernel (listen sfd max_clients)
      if is_neg listening then give_up kernel (bytes_of "listen") sfd else pure sfd

unfoldable pub setup_server : Kernel → ℕ → Action ℤ
setup_server kernel port = do
  sfd ← call kernel socket
  if is_neg sfd then fail kernel (bytes_of "socket") else prepare kernel port sfd

-- ===== src/Server/Boot/Log.antt =====
-- log_event of server/main.c, with its files.
use linux_veda_4sensor_tcp_c.Prelude.{ℕ, ℤ, is_neg, if◌then◌else◌, List, [], ◌∷◌}
use linux_veda_4sensor_tcp_c.Process.{
  open_file, write, close, Kernel, Action, call, pure, ◌>>=◌, ◌>>◌,
}
use linux_veda_4sensor_tcp_c.Process.Text.{bytes_of}
use linux_veda_4sensor_tcp_c.Server.Text.{log_line}
use linux_veda_4sensor_tcp_c.Server.Boot.{Host}

abbrev pub log_path : List ℕ
log_path = bytes_of "/tmp/alarm.log"

-- `if (fd >= 0) { write(fd, line, len); close(fd); }`
abbrev pub append : Kernel → List ℕ → ℤ → Action Unit
append kernel line fd =
    if is_neg fd then pure tt else do call kernel (write fd line); call kernel (close fd); pure tt

abbrev pub append_to_tty : Kernel → List ℕ → List ℕ → Action Unit
append_to_tty kernel line [] = pure tt
append_to_tty kernel line (b ∷ bs) = do
  tfd ← call kernel (open_file (b ∷ bs))
  append kernel line tfd

-- The third argument is `g_tty_path`.
unfoldable pub log_event : Kernel → Host → List ℕ → List ℕ → Action Unit
log_event kernel host tty_path msg h =
    let line = log_line (host.timebuf h) msg in
    (do
      fd ← call kernel (open_file log_path)
      append kernel line fd
      append_to_tty kernel line tty_path)
      h

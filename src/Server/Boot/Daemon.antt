-- ===== src/Server/Boot/Daemon.antt =====
-- daemonize of server/daemon.c.
use linux_veda_4sensor_tcp_c.Prelude.{ℕ, ℤ, pos, ◌==ℤ◌, is_neg, if◌then◌else◌, List}
use linux_veda_4sensor_tcp_c.Process.{
  fork, setsid, signal, chdir, umask, open_file, dup2, close, sighup, ignored, Kernel, Action, call,
  pure, exit, exit_success, exit_failure, ◌>>=◌, ◌>>◌,
}
use linux_veda_4sensor_tcp_c.Process.Text.{bytes_of}

abbrev pub null_path : List ℕ
null_path = bytes_of "/dev/null"

-- The block under `if (fd >= 0)`: STDIN_FILENO, STDOUT_FILENO and STDERR_FILENO are 0, 1 and 2.
abbrev pub redirect : Kernel → ℤ → Action Unit
redirect kernel fd = if is_neg fd then pure tt else do
  call kernel (dup2 fd (pos 0))
  call kernel (dup2 fd (pos 1))
  call kernel (dup2 fd (pos 2))
  call kernel (close fd)
  pure tt

-- What the child does.
abbrev pub detach : Kernel → Action Unit
detach kernel = do
  call kernel setsid
  call kernel (signal sighup ignored)
  r ← call kernel (chdir (bytes_of "/"))
  if is_neg r
      then exit exit_failure
      else do call kernel (umask 0); fd ← call kernel (open_file null_path); redirect kernel fd

-- Behind `fork` the history is that of the process which its answer names.
unfoldable pub daemonize : Kernel → Action Unit
daemonize kernel = do
  pid ← call kernel fork
  if is_neg pid
      then exit exit_failure
      else if pid ==ℤ pos 0
      then detach kernel
      else exit exit_success

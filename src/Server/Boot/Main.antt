-- ===== src/Server/Boot/Main.antt =====
-- initialize_hardware and start_worker of server/main.c, and `main` up to its loop.
use linux_veda_4sensor_tcp_c.Prelude.{
  ℕ, ℤ, pos, ◌==ℤ◌, is_neg, if◌then◌else◌, Option, none, some, List, [], ◌++◌,
}
use linux_veda_4sensor_tcp_c.Process.{
  readlink, ttyname, signal, pthread_create, sigpipe, ignored, Worker, led, buzzer, sensor,
  receiver, Kernel, Action, call, pure, fail, exit, exit_failure, ◌>>=◌, ◌>>◌,
}
use linux_veda_4sensor_tcp_c.Process.Text.{bytes_of}
use linux_veda_4sensor_tcp_c.Server.State
use linux_veda_4sensor_tcp_c.Server.State.{World, server_started}
use linux_veda_4sensor_tcp_c.Server.Text.{snprintf, base_dir}
use linux_veda_4sensor_tcp_c.Server.Accept
use linux_veda_4sensor_tcp_c.Server.Accept.{initial_world}
use linux_veda_4sensor_tcp_c.Server.Boot.{Host}
use linux_veda_4sensor_tcp_c.Server.Boot.Log.{log_event}
use linux_veda_4sensor_tcp_c.Server.Boot.Daemon.{daemonize}
use linux_veda_4sensor_tcp_c.Server.Boot.Listener.{port_number, setup_server}
use linux_veda_4sensor_tcp_c.Server.Boot.Libraries.{load_libraries}

abbrev pub worker_name : Worker → List ℕ
worker_name led = bytes_of "led"
worker_name buzzer = bytes_of "buzzer"
worker_name sensor = bytes_of "sensor"
worker_name receiver = bytes_of "receiver"

-- "THREAD START FAILED: %s (%s)", in 128 bytes.
abbrev start_failed : Host → Worker → ℤ → List ℕ
start_failed host w result = snprintf 128 (
    bytes_of "THREAD START FAILED: "
    ++ worker_name w
    ++ bytes_of " ("
    ++ host.strerror result
    ++ bytes_of ")")

module _ (kernel : Kernel) (host : Host) (tty_path : List ℕ) where
  abbrev pub log_and_exit : {A : Type 0} → List ℕ → Action A
  log_and_exit msg = do log_event kernel host tty_path msg; exit exit_failure

  unfoldable pub start_worker : Worker → Action Unit
  start_worker w = do
    result ← call kernel (pthread_create w)
    if result ==ℤ pos 0 then pure tt else log_and_exit (start_failed host w result)

  -- `Accept.initialize_hardware` is the test; this is the exit.
  abbrev pub hardware_or_exit : Option World → Action World
  hardware_or_exit (some w) = pure w
  hardware_or_exit none = log_and_exit (bytes_of "HARDWARE INITIALIZATION FAILED")

  -- Behind the threads.
  abbrev pub announce : World → Action World
  announce w = do
    log_event kernel host tty_path (bytes_of "SERVER STARTED")
    pure (State.log_event server_started w)

  abbrev pub start_workers : World → Action World
  start_workers w = do start_worker led; start_worker buzzer; start_worker sensor; announce w

  -- From the initialisation of the hardware to the log entry.
  abbrev pub start_devices : Action World
  start_devices = do
    w ← hardware_or_exit (Accept.initialize_hardware host.setup initial_world)
    start_workers w

-- Behind `setup_server`: the process becomes a daemon that a broken connection does not end.
abbrev pub go_daemon : Kernel → ℤ → Action ℤ
go_daemon kernel sfd = do daemonize kernel; call kernel (signal sigpipe ignored); pure sfd

-- From the libraries on, which are loaded while `stderr` is there; the libraries' functions are
-- called directly in what follows.
abbrev pub open_server : Kernel → List ℕ → Action ℤ
open_server kernel base = do
  load_libraries kernel base
  sfd ← setup_server kernel port_number
  go_daemon kernel sfd

abbrev pub boot_from : Kernel → Host → List ℕ → List ℕ → Action (ℤ × World)
boot_from kernel host tty_path base = do
  sfd ← open_server kernel base
  w ← start_devices kernel host tty_path
  pure (sfd, w)

-- Behind `readlink`.
abbrev pub boot_at : Kernel → Host → Action (ℤ × World)
boot_at kernel host = do
  tty ← call kernel ttyname
  boot_from kernel host (if tty ==ℤ pos 0 then [] else snprintf 64 host.tty) (base_dir host.link)

-- The listening socket and the state in which the loop starts.
unfoldable pub boot : Kernel → Host → Action (ℤ × World)
boot kernel host = do
  n ← call kernel readlink
  if is_neg n then fail kernel (bytes_of "readlink") else boot_at kernel host

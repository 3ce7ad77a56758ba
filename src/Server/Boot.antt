-- ===== src/Server/Boot.antt =====
-- The start of the server: server/daemon.c, and what `main` of server/main.c does up to its loop.
-- What the kernel and the dynamic linker answer is the `Kernel` of Process; `Host` is the rest of
-- what the process finds.
pub mod Faults
pub mod Log
pub mod Daemon
pub mod Listener
pub mod Libraries
pub mod Main
mod FileLaws
mod ListenLaws
mod DaemonLaws
mod Returns
mod StreamLaws
mod DeviceLaws
mod MainLaws
mod Symbols
mod LibraryLaws
mod Tests
use linux_veda_4sensor_tcp_c.Prelude.{ℕ, ℤ, List}
use linux_veda_4sensor_tcp_c.Process.{History, Worker}
use linux_veda_4sensor_tcp_c.Server.Accept.{Setup}

pub record Host : Type 0 where
  pub link : List ℕ  -- /proc/self/exe
  pub tty : List ℕ  -- the name of the terminal
  pub timebuf : History → List ℕ  -- the time, as strftime writes it
  pub strerror : ℤ → List ℕ
  pub setup : Setup

-- ===== src/ProtocolIo/Defs.antt =====
-- The error numbers that common/protocol_io.c looks at or sets.
use linux_veda_4sensor_tcp_c.Prelude.{ℕ}

-- What a failing call leaves in `errno`.
pub data Errno : Type 0 where
  eintr econnreset epipe : Errno
  other : ℕ → Errno

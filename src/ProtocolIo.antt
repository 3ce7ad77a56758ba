-- ===== src/ProtocolIo.antt =====
-- common/protocol_io.c: whole messages over a byte stream.
-- The kernel's `recv` and `send` are parameters. What they may answer is stated by `RecvOk` and
-- `SendOk`, as their manual pages document it for a blocking stream socket.
pub mod Defs
pub mod Recv
pub mod Send
pub mod Contract
pub mod RecvLaws
pub mod SendLaws
pub mod Keeps
pub mod Scripted
mod Tests

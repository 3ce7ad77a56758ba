-- ===== src/Gateway.antt =====
-- web/: the gateway between browsers and the alarm server, which speaks the protocol of
-- include/protocol.h to it.
pub mod Frames
pub mod Bridge
pub mod Page
pub mod FrameLaws
pub mod BridgeLaws
pub mod AliveLaws
mod Tests

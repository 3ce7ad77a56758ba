-- ===== src/Server.antt =====
-- server/: the alarm server. Its global variables and threads are one `World`; every function is a
-- step on it, taken whole. A step ends where the code sleeps, waits or blocks.
pub mod State
pub mod Dispatch
pub mod Clients
pub mod Melody
pub mod Countdown
pub mod Watch
pub mod Commands
pub mod Accept
pub mod System
pub mod Reply
pub mod Tests
pub mod Validity
pub mod ClientLaws
pub mod Serving
pub mod AlarmLaws
pub mod LedLaws
pub mod LedOrders
pub mod FailureLaws
pub mod DigitLaws
pub mod MelodyLock
pub mod Text
pub mod TextLaws
pub mod CountdownLaws
pub mod WatchLaws
pub mod Session
pub mod SessionLaws
pub mod SessionEnds
pub mod Traffic
pub mod TrafficLaws
pub mod Registry
pub mod RegistryLaws
pub mod MessageLaws
pub mod BroadcastLaws
pub mod MelodyLaws
pub mod Boot
pub mod Locks
pub mod Cancel

-- ===== src/Client.antt =====
-- client/main.c: the terminal client. Its input is the bytes of stdin, its effects are the messages
-- that it hands to protocol_send_message and what it prints.
pub mod Console
pub mod Menus
pub mod Screens
pub mod ScreenLaws
pub mod Display
pub mod Receiver
pub mod ReceiverLaws
pub mod AnswerLaws
pub mod ConversationLaws
pub mod HearsLaws
pub mod Startup
pub mod StartupLaws
pub mod ConsoleLaws
pub mod MenuLaws
pub mod FuelLaws
mod ZeroLaws
mod LeaveLaws
pub mod EventLaws
pub mod DisplayLaws
pub mod Tests
mod ConnectionTests

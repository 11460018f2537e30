-- ===== src/S5Max/Commands.antt =====
-- roborock_s5max/commands.rs: the frames that the MCU is sent.
mod Core
pub mod Sent
unfoldable pub use Core.*

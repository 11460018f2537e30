-- ===== src/S5Max/Mcu.antt =====
-- roborock_s5max/mcu.rs: the session with the MCU.
mod Acks
mod Core
pub mod Retries
mod Asked
mod Frames
pub mod Stop
mod Sends
pub mod Sound
mod Drive
pub mod Obeys
mod Tests
unfoldable pub use Acks.*
unfoldable pub use Core.*

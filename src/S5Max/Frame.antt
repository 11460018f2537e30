-- ===== src/S5Max/Frame.antt =====
-- frame.rs: the encoder of MCU frames.
mod Core
pub mod Laws
unfoldable pub use Core.*

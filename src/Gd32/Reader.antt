-- ===== src/Gd32/Reader.antt =====
-- protocol.rs: `RxPacket` and `PacketReader`, the parser of the bytes that the GD32 sends.
mod Core
pub mod Steps
pub mod RoundTrip
pub mod Safety
unfoldable pub use Core.*

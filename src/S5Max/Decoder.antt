-- ===== src/S5Max/Decoder.antt =====
-- packet.rs: `FrameDecoder`, the parser of the byte stream of the MCU.
mod Core
pub mod Unescape
pub mod Rounds
pub mod Extend
pub mod Chunks
pub mod RoundTrip
unfoldable pub use Core.*

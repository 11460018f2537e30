-- ===== src/Gd32/Packet.antt =====
-- packet.rs: `TxPacket`, the reusable buffer of outgoing commands. A method of `&mut self` returns
-- the new packet.
mod Core
mod Commands
mod Factory
pub mod Frames
pub mod Wire
unfoldable pub use Core.*
unfoldable pub use Commands.*
unfoldable pub use Factory.*

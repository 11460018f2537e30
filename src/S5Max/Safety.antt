-- ===== src/S5Max/Safety.antt =====
-- safety.rs: the actuator targets, the freshness gate and the deadman lease of the drive.
mod Core
pub mod Laws
unfoldable pub use Core.*

-- ===== src/S5Max/Lifecycle.antt =====
-- lifecycle.rs: the driver's lifecycle and the freshness of its telemetry.
mod Core
pub mod Laws
unfoldable pub use Core.*

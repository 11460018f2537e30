-- ===== src/RevoLds.antt =====
-- The parser of the Revo LDS (sangamio/src/devices/crl200s/revo_lds/protocol.rs).
mod Core
pub mod Agreement
pub mod Outcome
pub mod Returns
mod Tests
unfoldable pub use Core.*

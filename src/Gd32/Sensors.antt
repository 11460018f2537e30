-- ===== src/Gd32/Sensors.antt =====
-- crl200s/gd32/reader.rs: the sensor values in a status packet.
mod Core
pub mod Reads
mod Tests
unfoldable pub use Core.*

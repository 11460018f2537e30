-- ===== src/S5Max.antt =====
-- The Roborock S5 Max driver (sangamio/src/devices/roborock_s5max).
pub mod Crc
pub mod Frame
pub mod Decoder
pub mod Reports
pub mod Lifecycle
pub mod Safety
pub mod Commands
pub mod Mcu
pub mod Lds
mod Tests

-- ===== src/Gd32.antt =====
-- The driver of the CRL-200S's GD32 motor controller (sangamio/src/devices/crl200s/gd32).
pub mod Constants
pub mod Checksum
pub mod Packet
pub mod Reader
pub mod State
pub mod Heartbeat
pub mod Commands
pub mod Sensors
mod Tests

-- ===== src/Delta2D.antt =====
-- The Delta-2D lidar of the CRL-200S (sangamio/src/devices/crl200s/delta2d).
pub mod Core
pub mod Outcome
pub mod Settles
pub mod Whole
pub mod Driver
pub mod Account
mod Reads
pub mod Drain
mod Tests

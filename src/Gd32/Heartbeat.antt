-- ===== src/Gd32/Heartbeat.antt =====
-- heartbeat.rs: the thread that keeps the watchdog of the GD32 fed.
mod Core
pub mod Cycles
pub mod Watchdog
unfoldable pub use Core.*

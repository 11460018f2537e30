-- ===== src/Gd32/Commands.antt =====
-- commands.rs: what a command of the network does to the component state and the serial port.
mod Link
mod Handlers
pub mod State
pub mod Demand
pub mod Latest
pub mod Stop
mod Tests
mod Dispatch
unfoldable pub use Link.*
unfoldable pub use Dispatch.*
unfoldable pub use Handlers.*

-- ===== src/S5Max/Reports.antt =====
-- packet.rs: the reports in the payload of a frame.
mod Ids
mod Wire
mod Decode
mod Fields
mod Log
pub mod RoundTrip
pub mod EndToEnd
mod Tests
unfoldable pub use Ids.*
unfoldable pub use Wire.*
unfoldable pub use Decode.*
unfoldable pub use Fields.*
unfoldable pub use Log.*

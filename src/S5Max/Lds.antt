-- ===== src/S5Max/Lds.antt =====
-- lds.rs: the packets of the laser distance sensor, their stream, and whole revolutions.
pub mod Packet
pub mod Stream
pub mod Reading
pub mod Account
pub mod Revolution
pub mod Seen

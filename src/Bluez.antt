-- ===== src/Bluez.antt =====
-- Parts of the BlueZ sources in include/src: two containers, and texts of identifiers.
pub mod Queue
pub mod Ringbuf
pub mod Identifier

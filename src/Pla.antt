-- ===== src/Pla.antt =====
-- source/io: the reader and the writer of PLA files. A file is the list of its bytes.
pub mod Stream
pub mod Decimal
pub mod Chars
pub mod Read
pub mod Header
pub mod Rows
pub mod Progress
pub mod HeaderBounds
pub mod WellFormed
pub mod Stops
pub mod Write
pub mod RoundTrip
mod Examples

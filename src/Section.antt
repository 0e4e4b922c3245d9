-- ===== src/Section.antt =====
-- A section of the data file: 8192 bytes, a header of four words at their start.
-- Items grow upwards from the header, records downwards from the end.
pub mod Header
pub mod Record
pub mod Within
pub mod Extents
pub mod Types
mod Tests

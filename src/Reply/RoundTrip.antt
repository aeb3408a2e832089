-- ===== src/Reply/RoundTrip.antt =====
-- What the parser makes of the encoding of a value.
pub mod Scalar
pub mod Rounds
pub mod Strings
pub mod Lines
pub mod Overwrite
pub mod Elements
pub mod Row
pub mod Parts
pub mod Arrays
pub mod Whole
pub mod Replies

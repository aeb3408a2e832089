-- ===== src/Tests.antt =====
-- Concrete inputs of the parts of the library.
pub mod Inputs
pub mod Buffers
pub mod Search
pub mod Pieces
pub mod Replies
pub mod Dumps
pub mod Objects
pub mod Blocks
pub mod Pools
pub mod Chains

-- ===== src/Rdb.antt =====
-- src/base/rdb_parser: what the parser of database dumps reads off the input.
pub mod Endian
pub mod Helper
pub mod StoreLen
pub mod IntSet
pub mod ZipMap
pub mod ZipList
pub mod Types
pub mod Builder
pub mod Text
pub mod Chain
pub mod Block
pub mod Object
pub mod Body
pub mod Parse

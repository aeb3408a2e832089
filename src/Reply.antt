-- ===== src/Reply.antt =====
-- src/base/reply_parser: the parser of replies of a Redis server.
pub mod Types
pub mod Builder
pub mod Read
pub mod Text
pub mod Array
pub mod Parse
pub mod Spec
pub mod RoundTrip

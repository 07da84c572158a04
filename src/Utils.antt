-- ===== src/Utils.antt =====
-- src/utils: ranges of addresses, alignment, and the search of a partitioned array.
pub mod Ranges
pub mod Search
mod Tests

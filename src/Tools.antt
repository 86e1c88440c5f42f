-- ===== src/Tools.antt =====
-- The command line tools: aimless-onions/src/bin/allocate.rs and onion_sizes.rs, and
-- tor-diff-size/src/main.rs.
pub mod Allocate
pub mod OnionSizes
pub mod TorDiff
mod Tests

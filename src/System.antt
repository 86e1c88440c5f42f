-- ===== src/System.antt =====
-- How the authority, the relays and the clients of aimless-onions/ work together.
pub mod Received
pub mod Issued
pub mod Agreed
pub mod Parties
pub mod Fetching
pub mod Arriving
pub mod Journey
pub mod Posting
pub mod Sample
mod Tests
mod ArrivingTests
pub mod FetchingTests

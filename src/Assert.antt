-- ===== src/Assert.antt =====
-- The matchers of assert/ that are made of other matchers.
pub mod Matcher
pub mod Composite
pub mod Listing
pub mod Quantified
pub mod Ordered

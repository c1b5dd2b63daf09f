-- ===== src/Release.antt =====
-- The release tool, tools/release.
pub mod Commits
pub mod Version
pub mod Headings
pub mod Changelog
pub mod Info
pub mod Validate

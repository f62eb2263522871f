-- ===== src/Data.antt =====
-- internal/data: the models, one module for each table or group of tables.
pub mod Ids
pub mod Listing
pub mod Users
pub mod Sessions
pub mod Tokens
pub mod Permissions
pub mod Tasks
pub mod Timeline
pub mod Dates
pub mod Reviews
pub mod Applications
pub mod Bookmarks
pub mod Employers
pub mod Opportunities
pub mod Effects
pub mod Integrity
pub mod Assessments

-- ===== src/App.antt =====
-- internal/app: the HTTP layer.
pub mod Http
pub mod Middleware
pub mod Auth
pub mod Profile
pub mod Queries
pub mod Reviews
pub mod Applications
pub mod Employers
pub mod Opportunities
pub mod Assessments
pub mod Imports
pub mod Mail
pub mod Workers

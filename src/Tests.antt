-- ===== src/Tests.antt =====
-- Concrete schemas, values and tables, and each theorem at work on them.
pub mod People
pub mod Schemas
pub mod Publications
pub mod Sessions
pub mod Pages
pub mod Permissions
pub mod Limits
pub mod Drafts
pub mod Requests
pub mod Edits

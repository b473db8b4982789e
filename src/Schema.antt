-- ===== src/Schema.antt =====
-- server/internal/entity/schema.go, a file of children for each part of it.
pub mod Types
pub mod Texts
pub mod Times
pub mod Build
pub mod Values
pub mod Expand
pub mod Choices

-- ===== src/Access.antt =====
-- server/internal/permission and the repositories that it reads.
pub mod Normalize
pub mod Data
pub mod Source
pub mod Resolver
pub mod Generations
pub mod Members
pub mod Roles
pub mod Discipline

-- ===== src/Domain.antt =====
-- The business vocabulary: internal/domain.
pub mod Enums
pub mod Errors
pub mod Models
pub mod Status
pub mod Query

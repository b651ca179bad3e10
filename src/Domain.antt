-- ===== src/Domain.antt =====
-- Package domain (internal/domain): its errors, its types, and its pure functions, one child each.
pub mod Errors
pub mod Types
pub mod Uom
pub mod Kit
pub mod Product
pub mod Category

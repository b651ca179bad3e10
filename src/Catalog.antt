-- ===== src/Catalog.antt =====
-- The repositories beside StockRepo: the document collections of internal/adapters/mongo, and the
-- price and assembly tables of internal/adapters/postgres/catalog_repo.go.
pub mod Categories
pub mod Products
pub mod Prices
pub mod Assemblies

-- ===== src/Store.antt =====
-- The stock database: the tables of migrations/*.sql and the statements of
-- internal/adapters/postgres/stock_repo.go, each a function from the tables to a result and tables.
pub mod Tables
pub mod Rows
pub mod Valid
pub mod Room
pub mod Balances
pub mod Reservations
pub mod Movements
pub mod Warehouses

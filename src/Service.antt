-- ===== src/Service.antt =====
-- internal/application/service.go: the operations of Service on stock.
pub mod Lookup
pub mod Categories
pub mod Products
pub mod Assemblies
pub mod Listings
pub mod Apply
pub mod Movements
pub mod Orders
pub mod Request
pub mod Frame
pub mod Locks
pub mod Calm
pub mod Transfer
pub mod Constraints
pub mod Reads
pub mod Outside
pub mod Ledger
pub mod Redelivery
pub mod Reserving
pub mod Atomic

-- ===== src/Inventory.antt =====
-- backend/app/modules/inventory: items, serialized units, balances and the stock ledger.
pub mod Models
pub mod Repository
pub mod Stock
mod Tests

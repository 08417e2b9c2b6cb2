-- ===== src/Ledger.antt =====
-- The general ledger (backend/app/modules/ledger): tables, posting, reversal, fiscal periods, the
-- chart of accounts, balances and the bridge from inventory and sales events.
pub mod Models
pub mod Gates
pub mod Posting
pub mod Balance
pub mod Periods
pub mod Accounts
pub mod Bridge
mod Tests

-- ===== src/Receivables.antt =====
-- backend/app/modules/receivables: allocating payments to invoices, and the ageing report.
pub mod Models
pub mod Allocation
pub mod Invoices
pub mod Ageing
pub mod Outstanding
mod Tests

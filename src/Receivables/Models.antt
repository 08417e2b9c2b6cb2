-- ===== src/Receivables/Models.antt =====
-- backend/app/modules/receivables/models.py and constants.py: the columns that the modelled methods
-- read or write. Document numbers, currencies, dates of creation, descriptions and remarks are left
-- out. A quantity is in hundredths, a tax rate in ten-thousandths.
use engage_os.Base.{ℕ, Option, List}
use engage_os.Base.Int.{ℤ}
use engage_os.Core.Money.{Money}
use engage_os.Core.Table.{Model}

pub data InvoiceStatus : Type 0 where
  draft issued paid overdue void : InvoiceStatus

pub data PaymentStatus : Type 0 where
  cleared uncleared voided : PaymentStatus

pub record SalesInvoice : Type 0 where
  pub id : ℕ
  pub customer_id : ℕ
  pub posting_date : ℕ
  pub due_date : ℕ
  pub subtotal : Money
  pub tax_total : Money
  pub total : Money
  pub status : InvoiceStatus
  pub je_id : Option ℕ

pub record SalesInvoiceLine : Type 0 where
  pub invoice_id : ℕ
  pub qty : ℤ
  pub unit_price : Money
  pub line_total : Money
  pub tax_rate : ℤ
  pub tax_amount : Money

pub record CustomerPayment : Type 0 where
  pub id : ℕ
  pub amount : Money
  pub status : PaymentStatus

pub record PaymentAllocation : Type 0 where
  pub payment_id : ℕ
  pub invoice_id : ℕ
  pub amount : Money

pub record Receivables : Type 0 where
  pub invoices : List SalesInvoice
  pub payments : List CustomerPayment
  pub allocations : List PaymentAllocation
  pub lines : List SalesInvoiceLine
  pub customers : List ℕ
  pub next_id : ℕ

instance abbrev pub invoice_model : Model SalesInvoice
invoice_model = record { pk = λ i. i.id }

instance abbrev pub payment_model : Model CustomerPayment
payment_model = record { pk = λ p. p.id }

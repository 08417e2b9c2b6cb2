-- ===== src/Receivables/Allocation.antt =====
-- backend/app/modules/receivables/service.py, `PaymentService.allocate`. The schema of a request has
-- put its amount on the grid of `money`, which leaves it as it is. The new rows that
-- `allocate` returns are the last of the table.
pub mod Covered
use engage_os.Base.{
  ℕ, ◌≡◌, Bool, true, false, not, Option, none, some, List, [], ◌∷◌, ◌++◌, ◌==◌, map, where_rows,
  if◌then◌else◌,
}
use engage_os.Base.Int.{ℤ, ◌+ℤ◌, leb_ℤ, ltb_ℤ, sum}
use engage_os.Core.Exceptions.{Error, not_found, conflict}
use engage_os.Core.Action.{
  ⊤, Result, ok, err, Action, gets, or_raise, raise, raise_if, modify, pure, ◌>>=◌, ◌>>◌,
}
use engage_os.Core.Money.{Money}
use engage_os.Core.Table.{get, update}
use engage_os.Receivables.Models.{
  InvoiceStatus, PaymentStatus, SalesInvoice, invoice_model, CustomerPayment, payment_model,
  PaymentAllocation, Receivables,
}

pub record PaymentAllocationRequest : Type 0 where
  pub invoice_id : ℕ
  pub amount : Money

-- `sum_allocated_for_payment` and `sum_allocated`
unfoldable pub sum_allocated_for_payment : ℕ → List PaymentAllocation → Money
sum_allocated_for_payment p rows =
    sum (map (λ a. a.amount) (where_rows (λ a. a.payment_id == p) rows))

unfoldable pub sum_allocated : ℕ → List PaymentAllocation → Money
sum_allocated i rows = sum (map (λ a. a.amount) (where_rows (λ a. a.invoice_id == i) rows))

abbrev pub is_void : PaymentStatus → Bool
is_void PaymentStatus.cleared = false
is_void PaymentStatus.uncleared = false
is_void PaymentStatus.voided = true

-- The states of an invoice that a payment can be allocated to.
abbrev pub is_allocatable : InvoiceStatus → Bool
is_allocatable InvoiceStatus.draft = false
is_allocatable InvoiceStatus.issued = true
is_allocatable InvoiceStatus.paid = true
is_allocatable InvoiceStatus.overdue = true
is_allocatable InvoiceStatus.void = false

abbrev pub set_invoice_status : InvoiceStatus → SalesInvoice → SalesInvoice
set_invoice_status st i = record i { status = st }

abbrev pub set_payment_status : PaymentStatus → CustomerPayment → CustomerPayment
set_payment_status st p = record p { status = st }

abbrev pub add_allocation : PaymentAllocation → Action Receivables ⊤
add_allocation a = modify (λ s. record s { allocations = s.allocations ++ a ∷ [] })

-- "Check if invoice is now fully paid."
abbrev pub settle_invoice : SalesInvoice → Action Receivables ⊤
settle_invoice invoice s =
    if leb_ℤ invoice.total (sum_allocated invoice.id s.allocations)
    then (
      ok tt,
      record s { invoices = update invoice.id (set_invoice_status InvoiceStatus.paid) s.invoices },
    )
    else (ok tt, s)

-- The invoice exists and is in an allocatable state: the row is added.
abbrev pub allocate_to :
    CustomerPayment → PaymentAllocationRequest → Option SalesInvoice → Action Receivables ⊤
allocate_to payment r none = raise not_found
allocate_to payment r (some invoice) = do
  raise_if (not (is_allocatable invoice.status)) conflict
  add_allocation (record { payment_id = payment.id; invoice_id = r.invoice_id; amount = r.amount })
  settle_invoice invoice

-- The body of the loop, with the running total as it is before.
unfoldable pub allocate_one :
    CustomerPayment → Money → PaymentAllocationRequest → Action Receivables ⊤
allocate_one payment total_allocated r = do
  raise_if (ltb_ℤ payment.amount (total_allocated +ℤ r.amount)) conflict
  found ← gets (λ (s : Receivables). get r.invoice_id s.invoices)
  allocate_to payment r found

unfoldable pub allocate_each :
    CustomerPayment → Money → List PaymentAllocationRequest → Action Receivables ⊤
allocate_each payment total_allocated [] = pure tt
allocate_each payment total_allocated (r ∷ rs) = allocate_one payment total_allocated r >>= λ _.
    allocate_each payment (total_allocated +ℤ r.amount) rs

-- "Update payment status."
abbrev pub settle_payment : CustomerPayment → Action Receivables ⊤
settle_payment payment s =
    if leb_ℤ payment.amount (sum_allocated_for_payment payment.id s.allocations)
    then (
      ok tt,
      record s {
        payments = update payment.id (set_payment_status PaymentStatus.cleared) s.payments;
      },
    )
    else (ok tt, s)

unfoldable pub allocate_found :
    CustomerPayment → List PaymentAllocationRequest → Action Receivables ⊤
allocate_found payment requests = do
  raise_if (is_void payment.status) conflict
  total_allocated ← gets (λ (s : Receivables). sum_allocated_for_payment payment.id s.allocations)
  allocate_each payment total_allocated requests
  settle_payment payment

-- `allocate`
unfoldable pub allocate : ℕ → List PaymentAllocationRequest → Action Receivables ⊤
allocate payment_id requests = do
  found ← gets (λ (s : Receivables). get payment_id s.payments)
  payment ← or_raise found not_found
  allocate_found payment requests

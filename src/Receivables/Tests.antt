-- ===== src/Receivables/Tests.antt =====
-- A few invoices: tests of the code of backend/app/modules/receivables, and the theorems at them.
use engage_os.Base.{◌≤◌, ℕ, ◌≡◌, refl, none, List, [], ◌∷◌, where_rows, length, arith}
use engage_os.Base.Int.{pos}
use engage_os.Receivables.Models.{
  InvoiceStatus, SalesInvoice, PaymentStatus, CustomerPayment, Receivables,
}
use engage_os.Receivables.Allocation.{PaymentAllocationRequest, sum_allocated_for_payment, allocate}
use engage_os.Receivables.Allocation.Covered.{IsCovered, allocate-IsCovered}
use engage_os.Receivables.Ageing.{buckets_of, sum_ℕ, counts, is_due, falls_in, bucket_of}
use engage_os.Receivables.Outstanding.{
  sum_outstanding, recompute_ageing_task, AreMarked, get_ageing, list_outstanding, outstanding_of,
  outstanding_due, get_ageing-is_due, recompute_ageing_task-sum_outstanding,
}

abbrev invoice : ℕ → ℕ → ℕ → SalesInvoice
invoice id due total = record {
  id = id;
  customer_id = 3;
  posting_date = 90;
  due_date = due;
  subtotal = pos total;
  tax_total = pos 0;
  total = pos total;
  status = InvoiceStatus.issued;
  je_id = none;
}

abbrev invoices : List SalesInvoice
invoices = invoice 1 100 500 ∷ invoice 2 140 700 ∷ []

abbrev payment : CustomerPayment
payment = record { id = 9; amount = pos 600; status = PaymentStatus.uncleared }

abbrev books : Receivables
books = record {
  invoices = invoices;
  payments = payment ∷ [];
  allocations = [];
  lines = [];
  customers = 3 ∷ [];
  next_id = 20;
}

abbrev requests : List PaymentAllocationRequest
requests =
    record { invoice_id = 1; amount = pos 500 } ∷ record { invoice_id = 2; amount = pos 200 } ∷ []

-- On day 120 the invoice that is due on day 140 is in no bucket.
buckets_on_120 : counts (buckets_of 120 invoices) ≡ 0 ∷ 1 ∷ 0 ∷ 0 ∷ 0 ∷ []
unfolding buckets_of bucket_of falls_in
buckets_on_120 = refl

allocate-IsCovered_example : IsCovered payment (allocate 9 requests books).1
unfolding sum_allocated_for_payment
allocate-IsCovered_example = allocate-IsCovered 9 payment requests books refl (omega arith)

get_ageing-is_due_example :
    (sum_ℕ (counts (get_ageing 120 none books).buckets)
      ≡ length (where_rows (is_due 120) (list_outstanding none invoices)))
    × (length (where_rows (outstanding_of none) invoices) ≤ 100
        → sum_ℕ (counts (get_ageing 120 none books).buckets)
          ≡ length (outstanding_due 120 none invoices))
get_ageing-is_due_example = get_ageing-is_due 120 none books

recompute_ageing_task-sum_outstanding_example :
    (sum_outstanding none (recompute_ageing_task 120 invoices) ≡ sum_outstanding none invoices)
    × AreMarked 120 invoices (recompute_ageing_task 120 invoices)
recompute_ageing_task-sum_outstanding_example =
    recompute_ageing_task-sum_outstanding 120 none invoices

-- ===== src/Receivables/Allocation/Covered.antt =====
-- `PaymentService.allocate` of service.py: what is allocated from a payment, and its amount.
use engage_os.Base.{
  ℕ, ◌≡◌, refl, sym, ap, ◌∙◌, true, false, none, some, List, [], ◌∷◌, ◌++◌, ◌==◌, arith, inl, inr,
  Bool-cases, Option-cases, ==_refl,
}
use engage_os.Base.Int.{ℤ, pos, ◌+ℤ◌, ◌≤ℤ◌, leb_ℤ, ltb_ℤ, +ℤ_assoc, +ℤ_zero, zero-+ℤ}
use engage_os.Core.Exceptions.{Error, not_found, conflict}
use engage_os.Core.Action.{⊤, Result, ok, err, Action, ◌>>=◌}
use engage_os.Core.Money.{Money}
use engage_os.Core.Table.{get}
use engage_os.Receivables.Models.{
  SalesInvoice, invoice_model, CustomerPayment, payment_model, PaymentAllocation, Receivables,
}
use engage_os.Receivables.Allocation.{
  PaymentAllocationRequest, sum_allocated_for_payment, sum_allocated, is_void, is_allocatable,
  settle_invoice, allocate_one, allocate_each, settle_payment, allocate_found, allocate,
}

sum-append_own :
    (p : ℕ) (rows : List PaymentAllocation) (a : PaymentAllocation)
    → a.payment_id ≡ p
    → sum_allocated_for_payment p (rows ++ a ∷ []) ≡ sum_allocated_for_payment p rows +ℤ a.amount
unfolding sum_allocated_for_payment
sum-append_own p [] a own =
    let here : (a.payment_id == p) ≡ true = rw own (==_refl p) in
    rw here (+ℤ_zero a.amount ∙ sym (zero-+ℤ a.amount))
sum-append_own p (x ∷ rows) a own = elim (Bool-cases (x.payment_id == p)) [
  | inl e ↦
      rw (e, sum-append_own p rows a own)
        (sym (+ℤ_assoc x.amount (sum_allocated_for_payment p rows) a.amount))
  | inr e ↦ rw e (sum-append_own p rows a own)
]

-- What one round of the loop has done.
OneOutcome :
    CustomerPayment
    → Money
    → PaymentAllocationRequest
    → Receivables
    → Result ⊤ × Receivables
    → Type 0
OneOutcome payment total r s (err e, s') = s' ≡ s
OneOutcome payment total r s (ok a, s') =
    (total +ℤ r.amount ≤ℤ payment.amount)
    × (s'.allocations
        ≡ s.allocations
          ++ record { payment_id = payment.id; invoice_id = r.invoice_id; amount = r.amount } ∷ [])

with_allocation : PaymentAllocation → Receivables → Receivables
with_allocation a s = record s { allocations = s.allocations ++ a ∷ [] }

settle_invoice-allocations :
    (invoice : SalesInvoice) (s : Receivables)
    → ((settle_invoice invoice s).0 ≡ ok tt)
      × ((settle_invoice invoice s).1.allocations ≡ s.allocations)
settle_invoice-allocations invoice s =
    elim (Bool-cases (leb_ℤ invoice.total (sum_allocated invoice.id s.allocations))) [
      | inl e ↦ rw e (refl, refl)
      | inr e ↦ rw e (refl, refl)
    ]

within : (a b : ℤ) → ltb_ℤ a b ≡ false → b ≤ℤ a
within a b h = ground arith

by_parts :
    (payment : CustomerPayment) (total : Money) (r : PaymentAllocationRequest) (s : Receivables)
    (p : Result ⊤ × Receivables)
    → total +ℤ r.amount ≤ℤ payment.amount
    → p.0 ≡ ok tt
    → p.1.allocations
      ≡ s.allocations
        ++ record { payment_id = payment.id; invoice_id = r.invoice_id; amount = r.amount } ∷ []
    → OneOutcome payment total r s p
unfolding OneOutcome
by_parts payment total r s (ok a, s') fits done rows = (fits, rows)
by_parts payment total r s (err e, s') fits done rows = cc

module _ (payment : CustomerPayment) (total : Money) (r : PaymentAllocationRequest)
    (s : Receivables) where
  row : PaymentAllocation
  row = record { payment_id = payment.id; invoice_id = r.invoice_id; amount = r.amount }

  one_over :
      ltb_ℤ payment.amount (total +ℤ r.amount) ≡ true
      → allocate_one payment total r s ≡ (err conflict, s)
  unfolding allocate_one
  one_over over = rw over refl

  one_missing :
      ltb_ℤ payment.amount (total +ℤ r.amount) ≡ false
      → get r.invoice_id s.invoices ≡ none
      → allocate_one payment total r s ≡ (err not_found, s)
  unfolding allocate_one
  one_missing fits missing = rw (fits, missing) refl

  one_refused :
      (invoice : SalesInvoice)
      → ltb_ℤ payment.amount (total +ℤ r.amount) ≡ false
      → get r.invoice_id s.invoices ≡ some invoice
      → is_allocatable invoice.status ≡ false
      → allocate_one payment total r s ≡ (err conflict, s)
  unfolding allocate_one
  one_refused invoice fits found refused = rw (fits, found, refused) refl

  one_allocated :
      (invoice : SalesInvoice)
      → ltb_ℤ payment.amount (total +ℤ r.amount) ≡ false
      → get r.invoice_id s.invoices ≡ some invoice
      → is_allocatable invoice.status ≡ true
      → allocate_one payment total r s ≡ settle_invoice invoice (with_allocation row s)
  unfolding allocate_one with_allocation row
  one_allocated invoice fits found allowed = rw (fits, found, allowed) refl

  one_settled :
      (invoice : SalesInvoice)
      → total +ℤ r.amount ≤ℤ payment.amount
      → OneOutcome payment total r s (settle_invoice invoice (with_allocation row s))
  unfolding with_allocation row
  one_settled invoice fits =
      let (done, rows) = settle_invoice-allocations invoice (with_allocation row s) in
      by_parts payment total r s (settle_invoice invoice (with_allocation row s)) fits done rows

  refused_outcome : (e : Error) → OneOutcome payment total r s (err e, s)
  unfolding OneOutcome
  refused_outcome e = refl

  allocate_one-OneOutcome : OneOutcome payment total r s (allocate_one payment total r s)
  allocate_one-OneOutcome = elim (Bool-cases (ltb_ℤ payment.amount (total +ℤ r.amount))) [
    | inl over ↦ rw (one_over over) (refused_outcome conflict)
    | inr fits ↦ elim (Option-cases (get r.invoice_id s.invoices)) [
      | inl missing ↦ rw (one_missing fits missing) (refused_outcome not_found)
      | inr (invoice, found) ↦ elim (Bool-cases (is_allocatable invoice.status)) [
        | inr refused ↦ rw (one_refused invoice fits found refused) (refused_outcome conflict)
        | inl allowed ↦
            rw (one_allocated invoice fits found allowed)
              (one_settled invoice (within payment.amount (total +ℤ r.amount) fits))
      ]
    ]
  ]

-- The payment covers what is allocated from it.
abbrev pub IsCovered : CustomerPayment → Receivables → Type 0
IsCovered payment s = sum_allocated_for_payment payment.id s.allocations ≤ℤ payment.amount

IsCovered-append :
    (payment : CustomerPayment) (r : PaymentAllocationRequest) (s s' : Receivables)
    → sum_allocated_for_payment payment.id s.allocations +ℤ r.amount ≤ℤ payment.amount
    → s'.allocations ≡ s.allocations ++ row payment (pos 0) r s ∷ []
    → (sum_allocated_for_payment payment.id s'.allocations
        ≡ sum_allocated_for_payment payment.id s.allocations +ℤ r.amount)
      × IsCovered payment s'
unfolding row
IsCovered-append payment r s s' fits rows =
    let eq =
      ap (sum_allocated_for_payment payment.id) rows
      ∙ sum-append_own payment.id s.allocations (row payment (pos 0) r s) refl in
    (eq, rw eq fits)

next-IsCovered :
    (payment : CustomerPayment) (total : Money) (r : PaymentAllocationRequest)
    (k : Action Receivables ⊤) (s : Receivables) (p : Result ⊤ × Receivables)
    → OneOutcome payment total r s p
    → IsCovered payment s
    → sum_allocated_for_payment payment.id s.allocations ≡ total
    → ((s' : Receivables)
        → sum_allocated_for_payment payment.id s'.allocations ≡ total +ℤ r.amount
        → IsCovered payment s'
        → IsCovered payment (k s').1)
    → IsCovered payment (((λ t. p) >>= λ x. k) s).1
unfolding OneOutcome row
next-IsCovered payment total r k s (err e, s') same covered total_eq rest = rw same covered
next-IsCovered payment total r k s (ok a, s') (fits, rows) covered total_eq rest =
    let (eq, covered') = IsCovered-append payment r s s' (rw total_eq fits) rows in
    rest s' (eq ∙ ap (λ t. t +ℤ r.amount) total_eq) covered'

allocate_each-IsCovered :
    (payment : CustomerPayment) (rs : List PaymentAllocationRequest) (total : Money)
    (s : Receivables)
    → sum_allocated_for_payment payment.id s.allocations ≡ total
    → IsCovered payment s
    → IsCovered payment (allocate_each payment total rs s).1
unfolding allocate_each
allocate_each-IsCovered payment [] total s total_eq covered = covered
allocate_each-IsCovered payment (r ∷ rs) total s total_eq covered =
    next-IsCovered payment total r (allocate_each payment (total +ℤ r.amount) rs) s
      (allocate_one payment total r s) (allocate_one-OneOutcome payment total r s) covered total_eq
      (λ s' total' covered'.
        allocate_each-IsCovered payment rs (total +ℤ r.amount) s' total' covered')

settle_payment-allocations :
    (payment : CustomerPayment) (s : Receivables)
    → (settle_payment payment s).1.allocations ≡ s.allocations
settle_payment-allocations payment s =
    elim (Bool-cases (leb_ℤ payment.amount (sum_allocated_for_payment payment.id s.allocations))) [
      | inl e ↦ rw e refl
      | inr e ↦ rw e refl
    ]

settled-IsCovered :
    (payment : CustomerPayment) (s : Receivables) (p : Result ⊤ × Receivables)
    → IsCovered payment p.1
    → IsCovered payment (((λ t. p) >>= λ x. settle_payment payment) s).1
settled-IsCovered payment s (err e, s') covered = covered
settled-IsCovered payment s (ok a, s') covered =
    rw (ap (sum_allocated_for_payment payment.id) (settle_payment-allocations payment s')) covered

module _ (i : ℕ) (payment : CustomerPayment) (rs : List PaymentAllocationRequest)
    (s : Receivables) where
  allocate_void :
      get i s.payments ≡ some payment
      → is_void payment.status ≡ true
      → allocate i rs s ≡ (err conflict, s)
  unfolding allocate allocate_found
  allocate_void found h = rw (found, h) refl

  allocate_live :
      get i s.payments ≡ some payment
      → is_void payment.status ≡ false
      → allocate i rs s
        ≡ (allocate_each payment (sum_allocated_for_payment payment.id s.allocations) rs >>= λ x.
              settle_payment payment)
            s
  unfolding allocate allocate_found
  allocate_live found h = rw (found, h) refl

  -- A payment that covers what is allocated from it still does after any further allocation, whether
  -- it succeeds or raises in the middle of its list.
  pub allocate-IsCovered :
      get i s.payments ≡ some payment → IsCovered payment s → IsCovered payment (allocate i rs s).1
  allocate-IsCovered found covered = elim (Bool-cases (is_void payment.status)) [
    | inl h ↦ rw (allocate_void found h) covered
    | inr h ↦ rw (allocate_live found h) (
        settled-IsCovered payment s
          (allocate_each payment (sum_allocated_for_payment payment.id s.allocations) rs s)
          (allocate_each-IsCovered payment rs (sum_allocated_for_payment payment.id s.allocations) s
            refl covered))
  ]

-- ===== src/Receivables/Outstanding.antt =====
-- backend/app/modules/receivables: what customers owe (`list_outstanding`, `sum_outstanding` of
-- repository.py), the report over it (`get_ageing` of service.py) and the daily task that marks
-- overdue invoices (`recompute_ageing_task` of tasks.py).
use engage_os.Base.{
  ℕ, ◌-◌, ◌≤◌, ◌<◌, ◌≡◌, ◌≢◌, refl, ◌⊎◌, Bool, true, false, ◌&&◌, Option, none, some, List, [], ◌∷◌,
  ◌==◌, map, where_rows, if◌then◌else◌, leb, ltb, length, ap, ◌∙◌, arith, inl, inr, Bool-cases,
}
use engage_os.Base.Int.{sum}
use engage_os.Core.Money.{Money}
use engage_os.Receivables.Models.{InvoiceStatus, SalesInvoice, Receivables}
use engage_os.Receivables.Allocation.{set_invoice_status}
use engage_os.Receivables.Ageing.{
  AgeingBucket, buckets_of, is_due, counts, sum_ℕ, buckets_of-is_due,
}

abbrev pub is_outstanding : InvoiceStatus → Bool
is_outstanding InvoiceStatus.draft = false
is_outstanding InvoiceStatus.issued = true
is_outstanding InvoiceStatus.paid = false
is_outstanding InvoiceStatus.overdue = true
is_outstanding InvoiceStatus.void = false

abbrev pub is_issued : InvoiceStatus → Bool
is_issued InvoiceStatus.draft = false
is_issued InvoiceStatus.issued = true
is_issued InvoiceStatus.paid = false
is_issued InvoiceStatus.overdue = false
is_issued InvoiceStatus.void = false

abbrev pub is_of : Option ℕ → SalesInvoice → Bool
is_of none inv = true
is_of (some customer_id) inv = inv.customer_id == customer_id

abbrev pub outstanding_of : Option ℕ → SalesInvoice → Bool
outstanding_of customer inv = is_outstanding inv.status && is_of customer inv

-- `ORDER BY due_date ASC`: rows of the same date stay in the order of the table.
unfoldable pub insert_due : SalesInvoice → List SalesInvoice → List SalesInvoice
insert_due inv [] = inv ∷ []
insert_due inv (x ∷ xs) =
    if leb inv.due_date x.due_date then inv ∷ x ∷ xs else x ∷ insert_due inv xs

unfoldable pub order_by_due : List SalesInvoice → List SalesInvoice
order_by_due [] = []
order_by_due (x ∷ xs) = insert_due x (order_by_due xs)

unfoldable pub take_rows : ℕ → List SalesInvoice → List SalesInvoice
take_rows limit [] = []
take_rows limit (x ∷ xs) = if limit == 0 then [] else x ∷ take_rows (limit - 1) xs

-- `list_outstanding` with its limit of 100.
unfoldable pub list_outstanding : Option ℕ → List SalesInvoice → List SalesInvoice
list_outstanding customer invoices =
    take_rows 100 (order_by_due (where_rows (outstanding_of customer) invoices))

unfoldable pub sum_outstanding : Option ℕ → List SalesInvoice → Money
sum_outstanding customer invoices =
    sum (map (λ i. i.total) (where_rows (outstanding_of customer) invoices))

pub record AgeingResponse : Type 0 where
  pub buckets : List AgeingBucket
  pub total_outstanding : Money

unfoldable pub get_ageing : ℕ → Option ℕ → Receivables → AgeingResponse
get_ageing today customer s = record {
  buckets = buckets_of today (list_outstanding customer s.invoices);
  total_outstanding = sum_outstanding customer s.invoices;
}

-- `recompute_ageing_task`
abbrev pub is_past_due : ℕ → SalesInvoice → Bool
is_past_due today inv = is_issued inv.status && ltb inv.due_date today

abbrev pub mark_overdue : ℕ → SalesInvoice → SalesInvoice
mark_overdue today inv =
    if is_past_due today inv then set_invoice_status InvoiceStatus.overdue inv else inv

unfoldable pub recompute_ageing_task : ℕ → List SalesInvoice → List SalesInvoice
recompute_ageing_task today invoices = map (mark_overdue today) invoices

issued_outstanding : (st : InvoiceStatus) → is_issued st ≡ true → is_outstanding st ≡ true
issued_outstanding InvoiceStatus.draft h = cc
issued_outstanding InvoiceStatus.issued h = refl
issued_outstanding InvoiceStatus.paid h = cc
issued_outstanding InvoiceStatus.overdue h = refl
issued_outstanding InvoiceStatus.void h = cc

mark-outstanding :
    (today : ℕ) (customer : Option ℕ) (inv : SalesInvoice)
    → (outstanding_of customer (mark_overdue today inv) ≡ outstanding_of customer inv)
      × ((mark_overdue today inv).total ≡ inv.total)
mark-outstanding today none inv = ground (arith, issued_outstanding inv.status)
mark-outstanding today (some c) inv = ground (arith, issued_outstanding inv.status)

-- What the task does to one invoice: overdue for an issued one whose due date has passed, nothing
-- for any other.
abbrev pub IsMarked : ℕ → SalesInvoice → SalesInvoice → Type 0
IsMarked today inv after =
    ((inv.status ≡ InvoiceStatus.issued)
      × (inv.due_date < today)
      × (after ≡ record inv { status = InvoiceStatus.overdue }))
    ⊎ ((inv.status ≡ InvoiceStatus.issued → today ≤ inv.due_date) × (after ≡ inv))

abbrev pub AreMarked : ℕ → List SalesInvoice → List SalesInvoice → Type 0
AreMarked today [] [] = Unit
AreMarked today [] (y ∷ ys) = ⊥
AreMarked today (x ∷ xs) [] = ⊥
AreMarked today (x ∷ xs) (y ∷ ys) = IsMarked today x y × AreMarked today xs ys

is_issued-true : (st : InvoiceStatus) → is_issued st ≡ true → st ≡ InvoiceStatus.issued
is_issued-true st h = ground arith

is_issued-false : (st : InvoiceStatus) → is_issued st ≡ false → st ≢ InvoiceStatus.issued
is_issued-false InvoiceStatus.issued h e = cc
is_issued-false InvoiceStatus.draft h e = cc
is_issued-false InvoiceStatus.paid h e = cc
is_issued-false InvoiceStatus.overdue h e = cc
is_issued-false InvoiceStatus.void h e = cc

passed : (a b : ℕ) → ltb a b ≡ true → a < b
passed a b h = ground arith

not_passed : (a b : ℕ) → ltb a b ≡ false → b ≤ a
not_passed a b h = ground arith

mark_overdue-IsMarked :
    (today : ℕ) (inv : SalesInvoice) → IsMarked today inv (mark_overdue today inv)
mark_overdue-IsMarked today inv = elim (Bool-cases (is_issued inv.status)) [
  | inr e ↦ inr (λ h. absurd (is_issued-false inv.status e h), rw e refl)
  | inl e ↦ elim (Bool-cases (ltb inv.due_date today)) [
    | inl late ↦
        inl (is_issued-true inv.status e, passed inv.due_date today late, rw (e, late) refl)
    | inr early ↦ inr (λ h. not_passed inv.due_date today early, rw (e, early) refl)
  ]
]

-- The daily task leaves what every customer owes as it is; it marks as overdue each issued invoice
-- whose due date has passed, and leaves every other as it is.
pub recompute_ageing_task-sum_outstanding :
    (today : ℕ) (customer : Option ℕ) (invoices : List SalesInvoice)
    → (sum_outstanding customer (recompute_ageing_task today invoices)
        ≡ sum_outstanding customer invoices)
      × AreMarked today invoices (recompute_ageing_task today invoices)
unfolding recompute_ageing_task sum_outstanding
recompute_ageing_task-sum_outstanding today customer [] = (refl, tt)
recompute_ageing_task-sum_outstanding today customer (inv ∷ rest) =
    let (same, total) = mark-outstanding today customer inv in
    let (same_rest, marked_rest) = recompute_ageing_task-sum_outstanding today customer rest in
    elim (Bool-cases (outstanding_of customer inv)) [
      | inl e ↦
          (rw (same, e, total, same_rest) refl, (mark_overdue-IsMarked today inv, marked_rest))
      | inr e ↦ (rw (same, e) same_rest, (mark_overdue-IsMarked today inv, marked_rest))
    ]

length-insert_due :
    (p : SalesInvoice → Bool) (x : SalesInvoice) (ys : List SalesInvoice)
    → length (where_rows p (insert_due x ys)) ≡ length (where_rows p (x ∷ ys))
unfolding insert_due
length-insert_due p x [] = refl
length-insert_due p x (y ∷ ys) = elim (Bool-cases (leb x.due_date y.due_date)) [
  | inl e ↦ rw e refl
  | inr e ↦ rw e (ground (arith, length-insert_due p x ys))
]

length-order_by_due :
    (p : SalesInvoice → Bool) (xs : List SalesInvoice)
    → length (where_rows p (order_by_due xs)) ≡ length (where_rows p xs)
unfolding order_by_due
length-order_by_due p [] = refl
length-order_by_due p (x ∷ xs) =
    length-insert_due p x (order_by_due xs) ∙ ground (arith, length-order_by_due p xs)

where_rows-true : (xs : List SalesInvoice) → where_rows (λ x. true) xs ≡ xs
where_rows-true [] = refl
where_rows-true (x ∷ xs) = ap (λ ys. x ∷ ys) (where_rows-true xs)

where_rows-where_rows :
    (p q : SalesInvoice → Bool) (xs : List SalesInvoice)
    → where_rows p (where_rows q xs) ≡ where_rows (λ x. q x && p x) xs
where_rows-where_rows p q [] = refl
where_rows-where_rows p q (x ∷ xs) = ground (arith, where_rows-where_rows p q xs)

take_rows_all : (n : ℕ) (xs : List SalesInvoice) → length xs ≤ n → take_rows n xs ≡ xs
unfolding take_rows
take_rows_all n [] h = refl
take_rows_all n (x ∷ xs) h =
    let rest = take_rows_all (n - 1) xs (omega arith) in ground (arith, rest)

-- The invoices that a report is about.
abbrev pub outstanding_due : ℕ → Option ℕ → List SalesInvoice → List SalesInvoice
outstanding_due today customer invoices =
    where_rows (λ i. outstanding_of customer i && is_due today i) invoices

listed_all :
    (today : ℕ) (customer : Option ℕ) (invoices : List SalesInvoice)
    → length (where_rows (outstanding_of customer) invoices) ≤ 100
    → length (where_rows (is_due today) (list_outstanding customer invoices))
      ≡ length (outstanding_due today customer invoices)
unfolding list_outstanding
listed_all today customer invoices few =
    let rows = where_rows (outstanding_of customer) invoices in
    let short : length (order_by_due rows) ≤ 100 = omega (
      arith,
      rw (where_rows-true (order_by_due rows), where_rows-true rows) at
          (length-order_by_due (λ x. true) rows),
    ) in
    rw (take_rows_all 100 (order_by_due rows) short) (
      length-order_by_due (is_due today) rows
      ∙ ap length (where_rows-where_rows (is_due today) (outstanding_of customer) invoices))

-- The report counts each of the at most one hundred listed invoices that is due in exactly one of its
-- buckets, and one that is not due yet in none, although the buckets start with one named "current".
-- Where no more than one hundred invoices are outstanding, these are all that are outstanding and due.
pub get_ageing-is_due :
    (today : ℕ) (customer : Option ℕ) (s : Receivables)
    → (sum_ℕ (counts (get_ageing today customer s).buckets)
        ≡ length (where_rows (is_due today) (list_outstanding customer s.invoices)))
      × (length (where_rows (outstanding_of customer) s.invoices) ≤ 100
          → sum_ℕ (counts (get_ageing today customer s).buckets)
            ≡ length (outstanding_due today customer s.invoices))
unfolding get_ageing
get_ageing-is_due today customer s =
    let listed = buckets_of-is_due today (list_outstanding customer s.invoices) in
    (listed, λ few. listed ∙ listed_all today customer s.invoices few)

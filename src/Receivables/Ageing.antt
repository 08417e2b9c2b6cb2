-- ===== src/Receivables/Ageing.antt =====
-- backend/app/modules/receivables: the buckets of the ageing report (AGEING_BUCKETS of constants.py
-- and the loops of `get_ageing` in service.py).
use Prim.Native.String.{String}
use engage_os.Base.{
  ℕ, ◌+◌, ◌≡◌, refl, Bool, true, ◌&&◌, Option, none, some, List, [], ◌∷◌, map, where_rows,
  if◌then◌else◌, leb, length, arith, inl, inr, Bool-cases,
}
use engage_os.Base.Int.{ℤ, pos, sub_ℕ, leb_ℤ, sum}
use engage_os.Core.Money.{Money}
use engage_os.Receivables.Models.{SalesInvoice, invoice_model}

-- An entry of AGEING_BUCKETS: the label and the days overdue, from and to.
pub record BucketRange : Type 0 where
  pub label : String
  pub min_days : ℕ
  pub max_days : Option ℕ

abbrev pub ageing_buckets : List BucketRange
ageing_buckets =
    record { label = "current"; min_days = 0; max_days = some 0 }
    ∷ record { label = "1_30"; min_days = 1; max_days = some 30 }
    ∷ record { label = "31_60"; min_days = 31; max_days = some 60 }
    ∷ record { label = "61_90"; min_days = 61; max_days = some 90 }
    ∷ record { label = "over_90"; min_days = 91; max_days = none }
    ∷ []

abbrev pub is_within : ℤ → Option ℕ → Bool
is_within days none = true
is_within days (some m) = leb_ℤ days (pos m)

-- `min_days <= days_overdue <= max_days`
unfoldable pub falls_in : ℕ → BucketRange → SalesInvoice → Bool
falls_in today b inv =
    leb_ℤ (pos b.min_days) (sub_ℕ today inv.due_date)
    && is_within (sub_ℕ today inv.due_date) b.max_days

pub record AgeingBucket : Type 0 where
  pub label : String
  pub count : ℕ
  pub total : Money

unfoldable pub bucket_of : ℕ → List SalesInvoice → BucketRange → AgeingBucket
bucket_of today outstanding b = record {
  label = b.label;
  count = length (where_rows (falls_in today b) outstanding);
  total = sum (map (λ i. i.total) (where_rows (falls_in today b) outstanding));
}

unfoldable pub buckets_of : ℕ → List SalesInvoice → List AgeingBucket
buckets_of today outstanding = map (bucket_of today outstanding) ageing_buckets

-- The invoices that are due, and what the buckets hold of one invoice.
abbrev pub is_due : ℕ → SalesInvoice → Bool
is_due today inv = leb inv.due_date today

abbrev pub counts : List AgeingBucket → List ℕ
counts = map (λ b. b.count)

abbrev pub sum_ℕ : List ℕ → ℕ
sum_ℕ [] = 0
sum_ℕ (n ∷ ns) = n + sum_ℕ ns

abbrev bit : Bool → ℕ
bit b = if b then 1 else 0

length-where_rows :
    (p : SalesInvoice → Bool) (inv : SalesInvoice) (rest : List SalesInvoice)
    → length (where_rows p (inv ∷ rest)) ≡ bit (p inv) + length (where_rows p rest)
length-where_rows p inv rest = elim (Bool-cases (p inv)) [
  | inl e ↦ rw e (omega arith)
  | inr e ↦ rw e (omega arith)
]

-- The days overdue, if the invoice is due.
falls_due :
    (today lo hi : ℕ) (label : String) (inv : SalesInvoice)
    → falls_in today (record { label = label; min_days = lo; max_days = some hi }) inv
      ≡ leb (inv.due_date + lo) today && leb today (inv.due_date + hi)
unfolding falls_in
falls_due today lo hi label inv = ground arith

falls_late :
    (today lo : ℕ) (label : String) (inv : SalesInvoice)
    → falls_in today (record { label = label; min_days = lo; max_days = none }) inv
      ≡ leb (inv.due_date + lo) today
unfolding falls_in
falls_late today lo label inv = ground arith

bits :
    (d t : ℕ)
    → bit (leb (d + 0) t && leb t (d + 0))
        + (bit (leb (d + 1) t && leb t (d + 30))
            + (bit (leb (d + 31) t && leb t (d + 60))
                + (bit (leb (d + 61) t && leb t (d + 90)) + (bit (leb (d + 91) t) + 0))))
      ≡ bit (leb d t)
bits d t = ground arith

abbrev closed_range : String → ℕ → ℕ → BucketRange
closed_range label lo hi = record { label = label; min_days = lo; max_days = some hi }

abbrev open_range : String → ℕ → BucketRange
open_range label lo = record { label = label; min_days = lo; max_days = none }

-- One more invoice is counted in one more bucket, if it is due.
bits_of :
    (today : ℕ) (inv : SalesInvoice)
    → bit (falls_in today (closed_range "current" 0 0) inv)
        + (bit (falls_in today (closed_range "1_30" 1 30) inv)
            + (bit (falls_in today (closed_range "31_60" 31 60) inv)
                + (bit (falls_in today (closed_range "61_90" 61 90) inv)
                    + (bit (falls_in today (open_range "over_90" 91) inv) + 0))))
      ≡ bit (is_due today inv)
bits_of today inv =
    rw
      (
        falls_due today 0 0 "current" inv,
        falls_due today 1 30 "1_30" inv,
        falls_due today 31 60 "31_60" inv,
        falls_due today 61 90 "61_90" inv,
        falls_late today 91 "over_90" inv,
      )
      (bits inv.due_date today)

-- Every invoice of the list that is due is counted in exactly one bucket, and an
-- invoice that is not due yet in none, although the buckets start with one named "current".
pub buckets_of-is_due :
    (today : ℕ) (outstanding : List SalesInvoice)
    → sum_ℕ (counts (buckets_of today outstanding)) ≡ length (where_rows (is_due today) outstanding)
unfolding buckets_of bucket_of
buckets_of-is_due today [] = refl
buckets_of-is_due today (inv ∷ rest) =
    let step = λ (b : BucketRange). length-where_rows (falls_in today b) inv rest in
    rw
      (
        step (closed_range "current" 0 0),
        step (closed_range "1_30" 1 30),
        step (closed_range "31_60" 31 60),
        step (closed_range "61_90" 61 90),
        step (open_range "over_90" 91),
        length-where_rows (is_due today) inv rest,
        ← bits_of today inv,
        ← buckets_of-is_due today rest,
      )
      (omega arith)

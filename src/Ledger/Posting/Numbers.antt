-- ===== src/Ledger/Posting/Numbers.antt =====
-- The numbering of `_next_entry_no` (posting.py).
use Prim.Native.String.{String}
use text.Mathlib.Text.{◌==◌ as str_eq}
use engage_os.Base.{
  ℕ, suc, ◌+◌, ◌≤◌, ◌<◌, ◌≡◌, refl, ◌≢◌, sym, ap, ◌∙◌, Bool, ◌&&◌, List, [], ◌∷◌, ◌++◌, arith, ◌==◌,
  if◌then◌else◌, All, All-append, All-map, ==_sym,
}
use mathlib.Core.Path.{ap₂}
use engage_os.Ledger.Models.{VoucherType, journal_entry, EntryNo, JournalEntry, NumberSequence}
use engage_os.Ledger.Posting.{prefix_of, code_of, next_value, bump}

-- What an entry's number is made from.
abbrev pub Tag : Type 0
Tag = VoucherType × EntryNo

abbrev pub tag : JournalEntry → Tag
tag e = (e.voucher_type, e.entry_no)

abbrev same : VoucherType → ℕ → VoucherType → ℕ → Bool
same v fy w gy = code_of w == code_of v && gy == fy

-- How many numbers of a sequence have been given out.
abbrev pub count : VoucherType → ℕ → List Tag → ℕ
count v fy [] = 0
count v fy ((w, n) ∷ ts) = (if same v fy w n.fiscal_year then 1 else 0) + count v fy ts

abbrev pub Distinct : List Tag → Type 0
Distinct [] = Unit
Distinct (t ∷ ts) = All (λ u. t.1 ≢ u.1) ts × Distinct ts

-- Every number given out lies below the sequence's next one and above 0, no two entries have the
-- same number, and as many have been given out as lie below the next one.
pub record IsNumbered (ts : List Tag) (qs : List NumberSequence) : Type 0 where
  pub below : All (λ t. (1 ≤ t.1.number) × (t.1.number < next_value t.0 t.1.fiscal_year qs)) ts
  pub prefixes : All (λ t. t.1.prefix ≡ prefix_of t.0) ts
  pub distinct : Distinct ts
  pub gapless : (v : VoucherType) (fy : ℕ) → suc (count v fy ts) ≡ next_value v fy qs

pub next_value-bump :
    (v w : VoucherType) (fy gy : ℕ) (qs : List NumberSequence)
    → next_value w gy (bump v fy qs)
      ≡ (if same v fy w gy then suc (next_value w gy qs) else next_value w gy qs)
unfolding next_value bump
next_value-bump v w fy gy [] = ground arith
next_value-bump v w fy gy (q ∷ qs) = ground (arith, next_value-bump v w fy gy qs)

-- A prefix determines its voucher type.
decode : String → ℕ
decode p =
    if str_eq p "JV"
    then 0
    else if str_eq p "BP"
    then 1
    else if str_eq p "CP"
    then 2
    else if str_eq p "CNT"
    then 3
    else if str_eq p "CRN"
    then 4
    else if str_eq p "DBN"
    then 5
    else if str_eq p "WO"
    then 6
    else if str_eq p "OP"
    then 7
    else 8

decode-prefix_of : (v : VoucherType) → decode (prefix_of v) ≡ code_of v
unfolding decode code_of
decode-prefix_of journal_entry = refl
decode-prefix_of _ = refl

code_of_prefix : (v w : VoucherType) → prefix_of v ≡ prefix_of w → code_of v ≡ code_of w
code_of_prefix v w h = sym (decode-prefix_of v) ∙ ap decode h ∙ decode-prefix_of w

code_of-injective : (v w : VoucherType) → code_of v ≡ code_of w → v ≡ w
unfolding code_of
code_of-injective v w h = ground arith

count-append :
    (v : VoucherType) (fy : ℕ) (ts us : List Tag)
    → count v fy (ts ++ us) ≡ count v fy ts + count v fy us
count-append v fy [] us = omega arith
count-append v fy (t ∷ ts) us = omega (arith, count-append v fy ts us)

Distinct-append_one :
    (ts : List Tag) (u : Tag) → Distinct ts → All (λ t. t.1 ≢ u.1) ts → Distinct (ts ++ u ∷ [])
Distinct-append_one [] u d h = (tt, tt)
Distinct-append_one (t ∷ ts) u d h =
    (All-append (λ w. t.1 ≢ w.1) ts (u ∷ []) d.0 (h.0, tt), Distinct-append_one ts u d.1 h.1)

below_bump :
    (v : VoucherType) (fy : ℕ) (qs : List NumberSequence) (t : Tag)
    → (1 ≤ t.1.number) × (t.1.number < next_value t.0 t.1.fiscal_year qs)
    → (1 ≤ t.1.number) × (t.1.number < next_value t.0 t.1.fiscal_year (bump v fy qs))
below_bump v fy qs t b = ground (arith, next_value-bump v t.0 fy t.1.fiscal_year qs)

differs :
    (v w : VoucherType) (fy : ℕ) (n : EntryNo) (qs : List NumberSequence)
    → n.number < next_value w n.fiscal_year qs
    → n.prefix ≡ prefix_of w
    → n ≢ record { prefix = prefix_of v; fiscal_year = fy; number = next_value v fy qs }
differs v w fy n qs below prefix e =
    let same_type =
      code_of-injective w v (code_of_prefix w v (sym prefix ∙ ap (λ m. m.prefix) e)) in
    let same_year = ap (λ (m : EntryNo). m.fiscal_year) e in
    let same_number = ap (λ (m : EntryNo). m.number) e in
    ground (arith, ap₂ (λ x y. next_value x y qs) same_type same_year)

fresh_number :
    (v : VoucherType) (fy : ℕ) (ts : List Tag) (qs : List NumberSequence)
    → All (λ t. (1 ≤ t.1.number) × (t.1.number < next_value t.0 t.1.fiscal_year qs)) ts
    → All (λ t. t.1.prefix ≡ prefix_of t.0) ts
    → All
        (λ t. t.1 ≢ record { prefix = prefix_of v; fiscal_year = fy; number = next_value v fy qs })
        ts
fresh_number v fy [] qs b p = tt
fresh_number v fy (t ∷ ts) qs b p =
    (differs v t.0 fy t.1 qs b.0.1 p.0, fresh_number v fy ts qs b.1 p.1)

-- Numbering goes on without a gap or a repetition when the next number is given out.
pub IsNumbered-next :
    (v : VoucherType) (fy : ℕ) (ts : List Tag) (qs : List NumberSequence)
    → IsNumbered ts qs
    → IsNumbered
        (ts
          ++ (v, record { prefix = prefix_of v; fiscal_year = fy; number = next_value v fy qs })
            ∷ [])
        (bump v fy qs)
IsNumbered-next v fy ts qs h = record {
  below = All-append _ ts _ (All-map _ _ ts (λ t b. below_bump v fy qs t b) h.below) (fits, tt);
  prefixes = All-append _ ts _ h.prefixes (refl, tt);
  distinct = Distinct-append_one ts _ h.distinct (fresh_number v fy ts qs h.below h.prefixes);
  gapless = λ w gy. ground (
    arith,
    h.gapless w gy,
    next_value-bump v w fy gy qs,
    count-append w gy ts
        ((v, record { prefix = prefix_of v; fiscal_year = fy; number = next_value v fy qs }) ∷ []),
    ==_sym (code_of v) (code_of w),
    ==_sym fy gy,
  );
}
  where
    fits : (1 ≤ next_value v fy qs) × (next_value v fy qs < next_value v fy (bump v fy qs))
    fits = ground (arith, h.gapless v fy, next_value-bump v v fy fy qs)

-- ===== src/Ledger/Balance/Sums.antt =====
-- Lemmas on `sum_column` (repository.py): sums over lists of entries, of accounts and of lines.
use engage_os.Base.{
  ℕ, ◌-◌, ◌≤◌, ◌<◌, ◌≡◌, refl, inl, inr, Option, none, some, List, [], ◌∷◌, ◌++◌, map, arith, ◌==◌,
  if◌then◌else◌, Bool-cases, some-eq_some,
}
use mathlib.Core.Path.{ap}
use engage_os.Base.Int.{ℤ, pos, ◌+ℤ◌, int_laws, zero-+ℤ, +ℤ_zero}
use engage_os.Core.Money.{Money, money_one}
use engage_os.Core.Table.{get, update}
use engage_os.Ledger.Models.{JournalLine, JournalEntry, entry_model}
use engage_os.Ledger.Posting.{stored, mirror, mark_reversed}
use engage_os.Ledger.Balance.{selected, sum_lines, sum_column}

-- What one entry adds to the column of an account.
abbrev pub contribution : (JournalLine → Money) → ℕ → Option ℕ → Option ℕ → JournalEntry → Money
contribution column account_id from to e =
    if selected from to e then sum_lines column account_id e.lines else pos 0

pub sum_column-cons :
    (g : JournalLine → Money) (a : ℕ) (from to : Option ℕ) (e : JournalEntry)
    (es : List JournalEntry)
    → sum_column g a from to (e ∷ es) ≡ contribution g a from to e +ℤ sum_column g a from to es
unfolding sum_column
sum_column-cons g a from to e es = elim (Bool-cases (selected from to e)) [
  | inl h ↦ rw h
  | inr h ↦ rw h (omega int_laws)
]

pub sum_column-append_one :
    (g : JournalLine → Money) (a : ℕ) (from to : Option ℕ) (es : List JournalEntry)
    (e : JournalEntry)
    → sum_column g a from to (es ++ e ∷ [])
      ≡ sum_column g a from to es +ℤ contribution g a from to e
sum_column-append_one g a from to [] e =
    rw (sum_column-cons g a from to e []) (unfold sum_column in omega int_laws)
sum_column-append_one g a from to (x ∷ es) e =
    rw
      (
        sum_column-cons g a from to x (es ++ e ∷ []),
        sum_column-cons g a from to x es,
        sum_column-append_one g a from to es e,
      )
      (omega int_laws)

-- A posted entry that is marked as reversed leaves the sum.
pub sum_column-mark_reversed :
    (g : JournalLine → Money) (a : ℕ) (from to : Option ℕ) (i by : ℕ) (es : List JournalEntry)
    (e : JournalEntry)
    → get i es ≡ some e
    → sum_column g a from to (update i (mark_reversed by) es) +ℤ contribution g a from to e
      ≡ sum_column g a from to es
sum_column-mark_reversed g a from to i by [] e h = cc
sum_column-mark_reversed g a from to i by (x ∷ es) e h = elim (Bool-cases (x.id == i)) [
  | inl here ↦
      let same : x ≡ e = some-eq_some (rw here at h) in
      rw
        (
          here,
          sum_column-cons g a from to (mark_reversed by x) es,
          sum_column-cons g a from to x es,
          ap (contribution g a from to) same,
        )
        (omega int_laws)
  | inr there ↦
      rw
        (
          there,
          sum_column-cons g a from to x (update i (mark_reversed by) es),
          sum_column-cons g a from to x es,
          ← sum_column-mark_reversed g a from to i by es e (rw there at h),
        )
        (omega int_laws)
]

pub sum_lines-mirror_dr :
    (a : ℕ) (ls : List JournalLine)
    → sum_lines (λ l. l.dr_base) a (map (stored 1) (map mirror ls))
      ≡ sum_lines (λ l. l.cr_base) a ls
sum_lines-mirror_dr a [] = refl
sum_lines-mirror_dr a (l ∷ ls) = ground (arith, sum_lines-mirror_dr a ls, money_one l.cr_base)

pub sum_lines-mirror_cr :
    (a : ℕ) (ls : List JournalLine)
    → sum_lines (λ l. l.cr_base) a (map (stored 1) (map mirror ls))
      ≡ sum_lines (λ l. l.dr_base) a ls
sum_lines-mirror_cr a [] = refl
sum_lines-mirror_cr a (l ∷ ls) = ground (arith, sum_lines-mirror_cr a ls, money_one l.dr_base)

regroup : (a b c d e f : ℤ) → a +ℤ c ≡ e → b +ℤ d ≡ f → (a +ℤ b) +ℤ (c +ℤ d) ≡ e +ℤ f
regroup a b c d e f h k = grind (int_laws, h, k)

entry_split :
    (g : JournalLine → Money) (a start as_of : ℕ) (e : JournalEntry)
    → 0 < start
    → start ≤ as_of
    → contribution g a none (some (start - 1)) e +ℤ contribution g a (some start) (some as_of) e
      ≡ contribution g a none (some as_of) e
entry_split g a start as_of e p q =
    ground
      (arith, +ℤ_zero (sum_lines g a e.lines), zero-+ℤ (sum_lines g a e.lines), zero-+ℤ (pos 0))

-- Two ranges that meet add up.
pub sum_column-split :
    (g : JournalLine → Money) (a start as_of : ℕ) (es : List JournalEntry)
    → 0 < start
    → start ≤ as_of
    → sum_column g a none (some (start - 1)) es +ℤ sum_column g a (some start) (some as_of) es
      ≡ sum_column g a none (some as_of) es
sum_column-split g a start as_of [] p q = unfold sum_column in omega int_laws
sum_column-split g a start as_of (e ∷ es) p q =
    rw
      (
        sum_column-cons g a none (some (start - 1)) e es,
        sum_column-cons g a (some start) (some as_of) e es,
        sum_column-cons g a none (some as_of) e es,
      )
      (regroup _ _ _ _ _ _ (entry_split g a start as_of e p q)
        (sum_column-split g a start as_of es p q))

-- ===== src/Ledger/Balance/Trial.antt =====
-- The trial balance (service.py, `TrialBalanceService.build`): its totals.
use engage_os.Base.{
  ℕ, ◌+◌, ◌-◌, ◌≤◌, ◌<◌, ◌≡◌, refl, sym, ◌∙◌, inl, inr, Option, none, some, List, [], ◌∷◌, map,
  arith, ◌==◌, if◌then◌else◌, Bool-cases, All,
}
use mathlib.Core.Path.{fun_ext}
use engage_os.Base.Int.{ℤ, pos, ◌+ℤ◌, ◌-ℤ◌, leb_ℤ, sum, int_laws}
use engage_os.Core.Money.{Money}
use engage_os.Ledger.Models.{
  AccountNormalSide, normal_side_of, Account, JournalLine, JournalEntry, Ledger,
}
use engage_os.Ledger.Gates.Passes.{IsBalanced}
use engage_os.Ledger.Balance.{
  selected, sum_lines, sum_column, Calendar, start_month, fy_start, display, build_row, list_active,
  build,
}
use engage_os.Ledger.Balance.Sums.{contribution, sum_column-cons, sum_column-split}

abbrev pub count_id : ℕ → List Account → ℕ
count_id i [] = 0
count_id i (a ∷ rest) = (if i == a.id then 1 else 0) + count_id i rest

-- Every line of an entry is in exactly one active account.
abbrev pub IsListed : List Account → List JournalEntry → Type 0
IsListed accounts = All (λ e. All (λ l. count_id l.account_id (list_active accounts) ≡ 1) e.lines)

sum_zero : (accounts : List Account) → sum (map (λ a. pos 0) accounts) ≡ pos 0
sum_zero [] = refl
sum_zero (a ∷ rest) = rw (sum_zero rest) (omega int_laws)

sum_add :
    (f h : Account → ℤ) (accounts : List Account)
    → sum (map (λ a. f a +ℤ h a) accounts) ≡ sum (map f accounts) +ℤ sum (map h accounts)
sum_add f h [] = omega int_laws
sum_add f h (a ∷ rest) = rw (sum_add f h rest) (omega int_laws)

abbrev pick : (JournalLine → Money) → JournalLine → Account → Money
pick g l a = if l.account_id == a.id then g l else pos 0

count_ne_zero : (n : ℕ) → 1 + n ≡ 0 → ⊥
count_ne_zero n h = omega arith

count_none : (n : ℕ) → 0 + n ≡ 0 → n ≡ 0
count_none n h = omega arith

count_pred : (n : ℕ) → 1 + n ≡ 1 → n ≡ 0
count_pred n h = omega arith

count_same : (n : ℕ) → 0 + n ≡ 1 → n ≡ 1
count_same n h = omega arith

pick_none :
    (g : JournalLine → Money) (l : JournalLine) (accounts : List Account)
    → count_id l.account_id accounts ≡ 0
    → sum (map (pick g l) accounts) ≡ pos 0
pick_none g l [] h = refl
pick_none g l (a ∷ rest) h = elim (Bool-cases (l.account_id == a.id)) [
  | inl e ↦ absurd (count_ne_zero _ (rw e at h))
  | inr e ↦ rw (e, pick_none g l rest (count_none _ (rw e at h))) (omega int_laws)
]

pick_one :
    (g : JournalLine → Money) (l : JournalLine) (accounts : List Account)
    → count_id l.account_id accounts ≡ 1
    → sum (map (pick g l) accounts) ≡ g l
pick_one g l [] h = absurd (omega arith)
pick_one g l (a ∷ rest) h = elim (Bool-cases (l.account_id == a.id)) [
  | inl e ↦ rw (e, pick_none g l rest (count_pred _ (rw e at h))) (omega int_laws)
  | inr e ↦ rw (e, pick_one g l rest (count_same _ (rw e at h))) (omega int_laws)
]

sum_lines-cons :
    (g : JournalLine → Money) (l : JournalLine) (ls : List JournalLine) (a : Account)
    → sum_lines g a.id (l ∷ ls) ≡ pick g l a +ℤ sum_lines g a.id ls
sum_lines-cons g l ls a = elim (Bool-cases (l.account_id == a.id)) [
  | inl e ↦ rw e
  | inr e ↦ rw e (omega int_laws)
]

-- Over all accounts, each line is counted once.
sum_lines_every :
    (g : JournalLine → Money) (accounts : List Account) (ls : List JournalLine)
    → All (λ l. count_id l.account_id accounts ≡ 1) ls
    → sum (map (λ a. sum_lines g a.id ls) accounts) ≡ sum (map g ls)
sum_lines_every g accounts [] h = sum_zero accounts
sum_lines_every g accounts (l ∷ ls) h = rw (
  fun_ext (sum_lines-cons g l ls),
  sum_add (pick g l) (λ a. sum_lines g a.id ls) accounts,
  pick_one g l accounts h.0,
  sum_lines_every g accounts ls h.1,
)

-- A column over all posted entries up to a date.
abbrev column_total : (JournalLine → Money) → ℕ → List JournalEntry → Money
column_total g as_of [] = pos 0
column_total g as_of (e ∷ es) =
    (if selected none (some as_of) e then sum (map g e.lines) else pos 0) +ℤ column_total g as_of es

sum-contribution :
    (g : JournalLine → Money) (accounts : List Account) (as_of : ℕ) (e : JournalEntry)
    → All (λ l. count_id l.account_id accounts ≡ 1) e.lines
    → sum (map (λ a. contribution g a.id none (some as_of) e) accounts)
      ≡ (if selected none (some as_of) e then sum (map g e.lines) else pos 0)
sum-contribution g accounts as_of e h = elim (Bool-cases (selected none (some as_of) e)) [
  | inl p ↦ rw p (sum_lines_every g accounts e.lines h)
  | inr p ↦ rw p (sum_zero accounts)
]

sum_column_every :
    (g : JournalLine → Money) (accounts : List Account) (as_of : ℕ) (es : List JournalEntry)
    → All (λ e. All (λ l. count_id l.account_id accounts ≡ 1) e.lines) es
    → sum (map (λ a. sum_column g a.id none (some as_of) es) accounts) ≡ column_total g as_of es
sum_column_every g accounts as_of [] h = unfold sum_column in sum_zero accounts
sum_column_every g accounts as_of (e ∷ es) h = rw (
  fun_ext (λ (a : Account). sum_column-cons g a.id none (some as_of) e es),
  sum_add (λ a. contribution g a.id none (some as_of) e)
      (λ a. sum_column g a.id none (some as_of) es) accounts,
  sum-contribution g accounts as_of e h.0,
  sum_column_every g accounts as_of es h.1,
)

column_total_balanced :
    (as_of : ℕ) (es : List JournalEntry)
    → All IsBalanced (map (λ e. e.lines) es)
    → column_total (λ l. l.dr_base) as_of es ≡ column_total (λ l. l.cr_base) as_of es
column_total_balanced as_of [] h = refl
column_total_balanced as_of (e ∷ es) h = rw (h.0, column_total_balanced as_of es h.1)

display_lem :
    (side : AccountNormalSide) (dr cr : Money)
    → (display side dr cr).0 +ℤ cr ≡ (display side dr cr).1 +ℤ dr
display_lem AccountNormalSide.debit dr cr = elim (Bool-cases (leb_ℤ (pos 0) (dr -ℤ cr))) [
  | inl p ↦ rw p (omega int_laws)
  | inr p ↦ rw p (omega int_laws)
]
display_lem AccountNormalSide.credit dr cr = elim (Bool-cases (leb_ℤ (pos 0) (cr -ℤ dr))) [
  | inl p ↦ rw p (omega int_laws)
  | inr p ↦ rw p (omega int_laws)
]

interleave :
    (a b c d e f g h : ℤ)
    → a +ℤ b ≡ c +ℤ d
    → e +ℤ f ≡ g +ℤ h
    → (a +ℤ e) +ℤ (b +ℤ f) ≡ (c +ℤ g) +ℤ (d +ℤ h)
interleave a b c d e f g h p q = grind (int_laws, p, q)

cancel : (a b c d : ℤ) → a +ℤ b ≡ c +ℤ d → d ≡ b → (a ≡ c) × (a -ℤ c ≡ pos 0)
cancel a b c d p q = grind (int_laws, p, q)

row_lem :
    (start as_of : ℕ) (es : List JournalEntry) (a : Account)
    → 0 < start
    → start ≤ as_of
    → (build_row start as_of es a).closing_dr
        +ℤ sum_column (λ l. l.cr_base) a.id none (some as_of) es
      ≡ (build_row start as_of es a).closing_cr
        +ℤ sum_column (λ l. l.dr_base) a.id none (some as_of) es
unfolding build_row
row_lem start as_of es a p q =
    rw
      (
        ← sum_column-split (λ l. l.cr_base) a.id start as_of es p q,
        ← sum_column-split (λ l. l.dr_base) a.id start as_of es p q,
      )
      (display_lem (normal_side_of a.type) _ _)

rows_lem :
    (start as_of : ℕ) (es : List JournalEntry) (accounts : List Account)
    → 0 < start
    → start ≤ as_of
    → let rows = map (build_row start as_of es) accounts in
      sum (map (λ r. r.closing_dr) rows)
        +ℤ sum (map (λ a. sum_column (λ l. l.cr_base) a.id none (some as_of) es) accounts)
      ≡ sum (map (λ r. r.closing_cr) rows)
        +ℤ sum (map (λ a. sum_column (λ l. l.dr_base) a.id none (some as_of) es) accounts)
rows_lem start as_of es [] p q = refl
rows_lem start as_of es (a ∷ rest) p q =
    interleave _ _ _ _ _ _ _ _ (row_lem start as_of es a p q) (rows_lem start as_of es rest p q)

fy_start_lem :
    (c : Calendar) (month : Option ℕ) (as_of : ℕ)
    → 1 ≤ c.year as_of
    → start_month month ≤ 12
    → (0 < fy_start c month as_of) × (fy_start c month as_of ≤ as_of)
fy_start_lem c none as_of y m = ground (
  arith,
  c.date_pos (c.year as_of) 1 1,
  c.date_pos (c.year as_of - 1) 1 1,
  c.previous_year 1 as_of,
)
fy_start_lem c (some k) as_of y m = ground (
  arith,
  c.date_pos (c.year as_of) k 1,
  c.date_pos (c.year as_of - 1) k 1,
  c.previous_year k as_of,
)

-- The trial balance balances at every date: if each entry is balanced and each of its lines lies in
-- exactly one active account, total debit equals total credit and the difference is 0, wherever the
-- fiscal year starts and whatever side the balances are shown on.
pub build-IsBalanced :
    (c : Calendar) (month : Option ℕ) (as_of : ℕ) (s : Ledger)
    → 1 ≤ c.year as_of
    → start_month month ≤ 12
    → All IsBalanced (map (λ e. e.lines) s.entries)
    → IsListed s.accounts s.entries
    → ((build c month as_of s).total_dr ≡ (build c month as_of s).total_cr)
      × ((build c month as_of s).difference ≡ pos 0)
unfolding build
build-IsBalanced c month as_of s y m balanced listed =
    let (positive, before) = fy_start_lem c month as_of y m in
    let rows =
      rows_lem (fy_start c month as_of) as_of s.entries (list_active s.accounts) positive before in
    let dr = sum_column_every (λ l. l.dr_base) (list_active s.accounts) as_of s.entries listed in
    let cr = sum_column_every (λ l. l.cr_base) (list_active s.accounts) as_of s.entries listed in
    let same = dr ∙ column_total_balanced as_of s.entries balanced ∙ sym cr in
    cancel _ _ _ _ rows same

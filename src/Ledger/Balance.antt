-- ===== src/Ledger/Balance.antt =====
-- backend/app/modules/ledger/repository.py (`sum_by_account`) and service.py
-- (`TrialBalanceService.build`): balances of accounts. The library's datetime is a parameter.
pub mod Sums
pub mod Trial
use Prim.Native.String.{String}
use engage_os.Base.{
  ℕ, ◌-◌, ◌≤◌, ◌<◌, ◌≡◌, Bool, true, false, ◌&&◌, Option, none, some, List, [], ◌∷◌, map, ltb, leb,
  ◌==◌, if◌then◌else◌, where_rows,
}
use engage_os.Base.Int.{ℤ, pos, ◌+ℤ◌, ◌-ℤ◌, leb_ℤ, sum}
use engage_os.Core.Money.{Money, money_zero}
use engage_os.Ledger.Models.{
  AccountType, AccountNormalSide, normal_side_of, Account, JournalLine, JournalEntry, Ledger,
}
use engage_os.Ledger.Posting.{is_posted}

-- `posting_date >= from_date` and `posting_date <= to_date`, where they are given.
abbrev pub from_ok : Option ℕ → ℕ → Bool
from_ok none d = true
from_ok (some f) d = leb f d

abbrev pub to_ok : Option ℕ → ℕ → Bool
to_ok none d = true
to_ok (some t) d = leb d t

abbrev pub selected : Option ℕ → Option ℕ → JournalEntry → Bool
selected from to e = is_posted e.status && (from_ok from e.posting_date && to_ok to e.posting_date)

-- A column of the lines of one account.
abbrev pub sum_lines : (JournalLine → Money) → ℕ → List JournalLine → Money
sum_lines column account_id [] = pos 0
sum_lines column account_id (l ∷ ls) =
    if l.account_id == account_id
    then column l +ℤ sum_lines column account_id ls
    else sum_lines column account_id ls

-- A column of the lines of one account over the posted entries in range, 0 if there is none.
unfoldable pub sum_column :
    (JournalLine → Money) → ℕ → Option ℕ → Option ℕ → List JournalEntry → Money
sum_column column account_id from to [] = pos 0
sum_column column account_id from to (e ∷ es) =
    if selected from to e
    then sum_lines column account_id e.lines +ℤ sum_column column account_id from to es
    else sum_column column account_id from to es

-- `JournalLineRepository.sum_by_account`: total debit and credit.
abbrev pub sum_by_account : ℕ → Option ℕ → Option ℕ → List JournalEntry → Money × Money
sum_by_account account_id from to es = (
  sum_column (λ l. l.dr_base) account_id from to es,
  sum_column (λ l. l.cr_base) account_id from to es,
)

-- What is used of Python's datetime: `date.year` and `date(y, m, d)`, on day numbers.
pub record Calendar : Type 0 where
  pub year : ℕ → ℕ
  pub date : ℕ → ℕ → ℕ → ℕ
  pub date_pos : (y m d : ℕ) → 0 < date y m d
  pub previous_year : (m d : ℕ) → 1 ≤ year d → m ≤ 12 → date (year d - 1) m 1 ≤ d

-- The month of the setting, 1 where there is no setting.
abbrev pub start_month : Option ℕ → ℕ
start_month none = 1
start_month (some k) = k

-- `fiscal_year` and `fy_start`
abbrev pub fy_start : Calendar → Option ℕ → ℕ → ℕ
fy_start c month as_of =
    let m = start_month month in
    let start = c.date (c.year as_of) m 1 in
    if ltb as_of start then c.date (c.year as_of - 1) m 1 else start

pub record TrialBalanceRow : Type 0 where
  pub account_code : String
  pub account_type : AccountType
  pub opening_dr : Money
  pub opening_cr : Money
  pub period_dr : Money
  pub period_cr : Money
  pub closing_dr : Money
  pub closing_cr : Money

-- The two columns in which a balance is shown: on the normal side, or on the other if negative.
abbrev pub display : AccountNormalSide → Money → Money → Money × Money
display AccountNormalSide.debit dr cr =
    if leb_ℤ (pos 0) (dr -ℤ cr) then (dr -ℤ cr, pos 0) else (pos 0, pos 0 -ℤ (dr -ℤ cr))
display AccountNormalSide.credit dr cr =
    if leb_ℤ (pos 0) (cr -ℤ dr) then (pos 0, cr -ℤ dr) else (pos 0 -ℤ (cr -ℤ dr), pos 0)

unfoldable pub build_row : ℕ → ℕ → List JournalEntry → Account → TrialBalanceRow
build_row start as_of es account =
    let opening = sum_by_account account.id none (some (start - 1)) es in
    let period = sum_by_account account.id (some start) (some as_of) es in
    let shown =
      display (normal_side_of account.type) (opening.0 +ℤ period.0) (opening.1 +ℤ period.1) in
    record {
      account_code = account.code;
      account_type = account.type;
      opening_dr = opening.0;
      opening_cr = opening.1;
      period_dr = period.0;
      period_cr = period.1;
      closing_dr = shown.0;
      closing_cr = shown.1;
    }

pub record TrialBalanceResponse : Type 0 where
  pub as_of_date : ℕ
  pub rows : List TrialBalanceRow
  pub total_dr : Money
  pub total_cr : Money
  pub difference : Money

-- `AccountRepository.list_active`; the order by code is left out.
abbrev pub list_active : List Account → List Account
list_active = where_rows (λ a. a.is_active)

-- `TrialBalanceService.build`
unfoldable pub build : Calendar → Option ℕ → ℕ → Ledger → TrialBalanceResponse
unfolding build_row
build c month as_of s =
    let rows = map (build_row (fy_start c month as_of) as_of s.entries) (list_active s.accounts) in
    let total_dr = sum (map (λ r. r.closing_dr) rows) in
    let total_cr = sum (map (λ r. r.closing_cr) rows) in
    record {
      as_of_date = as_of;
      rows = rows;
      total_dr = total_dr;
      total_cr = total_cr;
      difference = total_dr -ℤ total_cr;
    }

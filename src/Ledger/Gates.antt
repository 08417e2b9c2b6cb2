-- ===== src/Ledger/Gates.antt =====
-- backend/app/modules/ledger/posting.py, the validation gates of `PostingService.post`: functions of
-- the tables.
pub mod Passes
use engage_os.Base.{
  ℕ, ◌≡◌, refl, Bool, true, false, not, ◌&&◌, Option, none, some, List, [], ◌∷◌, map, leb,
  if◌then◌else◌,
}
use engage_os.Base.Lists.{where_rows}
use engage_os.Base.Int.{pos, eq_ℤ}
use engage_os.Core.Exceptions.{
  Error, posting_error, period_not_open, account_not_found, account_inactive, account_not_postable,
  control_account_violation, zero_amount_line, both_dr_and_cr, unbalanced,
}
use engage_os.Core.Action.{⊤, Result, ok, err}
use engage_os.Core.Money.{money_sum}
use engage_os.Core.Table.{get, one_or_none}
use engage_os.Ledger.Models.{
  Account, account_model, FiscalPeriod, PeriodStatus, JournalLineRequest, JournalEntryCreateRequest,
  Ledger,
}

-- A gate that raises ends the chain.
infixl 5 ◌>>=◌ ◌>>◌
abbrev pub ◌>>=◌ : {P Q : Type 0} → Result P → (P → Result Q) → Result Q
err x >>= next = err x
ok p >>= next = next p

abbrev pub ◌>>◌ : {P Q : Type 0} → Result P → Result Q → Result Q
gate >> next = gate >>= λ _. next

-- A chain that passes has passed its first gate and, with what that found, the others.
pub >>=-eq_ok :
    {P Q : Type 0} (gate : Result P) (next : P → Result Q) {q : Q}
    → (gate >>= next) ≡ ok q
    → (p : P) × (gate ≡ ok p) × (next p ≡ ok q)
>>=-eq_ok (err x) next passed = cc
>>=-eq_ok (ok p) next passed = (p, refl, passed)

abbrev pub guard : Bool → Error → Result ⊤
guard c e = if c then ok tt else err e

abbrev pub is_open : PeriodStatus → Bool
is_open PeriodStatus.open_period = true
is_open PeriodStatus.closed = false
is_open PeriodStatus.locked = false

-- The WHERE clause of `FiscalPeriodRepository.get_open_period`.
abbrev pub covers : ℕ → FiscalPeriod → Bool
covers date p = leb p.start_date date && (leb date p.end_date && is_open p.status)

-- `get_open_period`
abbrev pub get_open_period : ℕ → List FiscalPeriod → Result (Option FiscalPeriod)
get_open_period date ps = one_or_none (where_rows (covers date) ps)

abbrev some_or : {A : Type 0} → Option A → Error → Result A
some_or none e = err e
some_or (some a) e = ok a

-- Gate 1: the period is open.
unfoldable pub check_period : ℕ → List FiscalPeriod → Result FiscalPeriod
check_period date ps =
    get_open_period date ps >>= λ found. some_or found (posting_error period_not_open)

-- Gates 2 and 3 for one line: its account exists, is active and postable, and is no control
-- account unless the system posts.
unfoldable pub check_account : List Account → Bool → JournalLineRequest → Result ⊤
check_account accounts is_system_generated line =
    some_or (get line.account_id accounts) (posting_error account_not_found) >>= λ account.
    guard account.is_active (posting_error account_inactive)
    >> guard account.is_postable (posting_error account_not_postable)
    >> guard (not (account.is_control && not is_system_generated))
        (posting_error control_account_violation)

unfoldable pub check_accounts : List Account → Bool → List JournalLineRequest → Result ⊤
check_accounts accounts sys [] = ok tt
check_accounts accounts sys (l ∷ ls) =
    check_account accounts sys l >> check_accounts accounts sys ls

-- Gate 4 for one line: exactly one side is populated.
unfoldable pub check_amounts_line : JournalLineRequest → Result ⊤
check_amounts_line l =
    guard (not (eq_ℤ l.dr (pos 0) && eq_ℤ l.cr (pos 0))) (posting_error zero_amount_line)
    >> guard (not (not (eq_ℤ l.dr (pos 0)) && not (eq_ℤ l.cr (pos 0))))
        (posting_error both_dr_and_cr)

unfoldable pub check_amounts : List JournalLineRequest → Result ⊤
check_amounts [] = ok tt
check_amounts (l ∷ ls) = check_amounts_line l >> check_amounts ls

-- Gate 5: debits equal credits in the base currency, each sum rounded once.
unfoldable pub check_balance : ℕ → List JournalLineRequest → Result ⊤
check_balance grain ls =
    guard
      (eq_ℤ (money_sum grain (map (λ l. l.dr_base) ls)) (money_sum grain (map (λ l. l.cr_base) ls)))
      (posting_error unbalanced)

-- All gates, in order; the period is the one the entry is written into.
unfoldable pub gates : Ledger → JournalEntryCreateRequest → Bool → Result FiscalPeriod
gates s request sys = do
  period ← check_period request.posting_date s.periods
  check_accounts s.accounts sys request.lines
  check_amounts request.lines
  check_balance request.grain request.lines
  ok period

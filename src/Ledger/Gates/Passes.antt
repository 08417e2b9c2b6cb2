-- ===== src/Ledger/Gates/Passes.antt =====
-- What the gates of `PostingService.post` (posting.py) let through: an independent description.
use engage_os.Base.{
  ℕ, ap, ◌≡◌, refl, ◌≢◌, ◌↔◌, ◌∙◌, ◌⊎◌, inl, inr, Bool, true, false, some, List, [], ◌∷◌, map,
  foldl, arith, Option-cases, All, where_rows,
}
use engage_os.Base.Int.{ℤ, pos, ◌+ℤ◌, sum, eq_ℤ-eq_true, eq_ℤ_of_eq, +ℤ_assoc, zero-+ℤ, int_laws}
use engage_os.Core.Action.{ok, err}
use engage_os.Core.Money.{money, money_sum}
use engage_os.Core.Table.{get, one_or_none}
use engage_os.Core.Exceptions.{posting_error, period_not_open}
use engage_os.Ledger.Models.{
  Account, account_model, FiscalPeriod, JournalLine, JournalLineRequest, JournalEntryCreateRequest,
  Ledger,
}
use engage_os.Ledger.Gates.{
  some_or, ◌>>=◌, >>=-eq_ok, covers, check_period, check_account, check_accounts,
  check_amounts_line, check_amounts, check_balance, gates,
}

abbrev pub IsPostable : List Account → Bool → JournalLineRequest → Type 0
IsPostable accounts sys l =
    (a : Account) × (get l.account_id accounts ≡ some a)
    × (a.is_active ≡ true)
    × (a.is_postable ≡ true)
    × ((a.is_control ≡ false) ⊎ (sys ≡ true))

abbrev pub IsOneSided : JournalLineRequest → Type 0
IsOneSided l = ((l.dr ≡ pos 0) × (l.cr ≢ pos 0)) ⊎ ((l.dr ≢ pos 0) × (l.cr ≡ pos 0))

abbrev pub IsBalanced : List JournalLine → Type 0
IsBalanced ls = sum (map (λ l. l.dr_base) ls) ≡ sum (map (λ l. l.cr_base) ls)

-- The sums of the two sides agree once they are rounded.
abbrev pub AgreesRounded : ℕ → List JournalLineRequest → Type 0
AgreesRounded grain ls =
    money grain (sum (map (λ l. l.dr_base) ls)) ≡ money grain (sum (map (λ l. l.cr_base) ls))

-- One open period covers the date; each line has a usable account and one side; the base-currency
-- sums agree.
pub record Passes (s : Ledger) (r : JournalEntryCreateRequest) (sys : Bool) (p : FiscalPeriod)
    : Type 0 where
  pub period : where_rows (covers r.posting_date) s.periods ≡ p ∷ []
  pub accounts : All (IsPostable s.accounts sys) r.lines
  pub amounts : All IsOneSided r.lines
  pub balance : AgreesRounded r.grain r.lines

foldl-sum : (xs : List ℤ) (a : ℤ) → foldl ◌+ℤ◌ a xs ≡ a +ℤ sum xs
foldl-sum [] a = omega int_laws
foldl-sum (x ∷ xs) a = rw (foldl-sum xs (a +ℤ x)) (+ℤ_assoc a x (sum xs))

money_sum-eq-sum : (grain : ℕ) (xs : List ℤ) → money_sum grain xs ≡ money grain (sum xs)
unfolding money_sum
money_sum-eq-sum grain xs = ap (money grain) (foldl-sum xs (pos 0) ∙ zero-+ℤ (sum xs))

single_of_ok :
    (ps : List FiscalPeriod) (p : FiscalPeriod)
    → (one_or_none ps >>= λ found. some_or found (posting_error period_not_open)) ≡ ok p
    → ps ≡ p ∷ []
single_of_ok [] p h = cc
single_of_ok (x ∷ []) p h = ground arith
single_of_ok (x ∷ y ∷ xs) p h = cc

check_account_ok :
    (accounts : List Account) (sys : Bool) (l : JournalLineRequest)
    → check_account accounts sys l ≡ ok tt
    → IsPostable accounts sys l
unfolding check_account
check_account_ok accounts sys l h = elim (Option-cases (get l.account_id accounts)) [
  | inl e ↦ ground arith
  | inr (a, e) ↦ (a, e, ground arith, ground arith, ground arith)
]

check_account_of :
    (accounts : List Account) (sys : Bool) (l : JournalLineRequest)
    → IsPostable accounts sys l
    → check_account accounts sys l ≡ ok tt
unfolding check_account
check_account_of accounts sys l (a, e, active, postable, free) = rw e (ground arith)

check_accounts_ok :
    (accounts : List Account) (sys : Bool) (ls : List JournalLineRequest)
    → check_accounts accounts sys ls ≡ ok tt
    → All (IsPostable accounts sys) ls
unfolding check_accounts
check_accounts_ok accounts sys [] h = tt
check_accounts_ok accounts sys (l ∷ ls) h =
    let (u, first, rest) =
      >>=-eq_ok (check_account accounts sys l) (λ _. check_accounts accounts sys ls) h in
    (check_account_ok accounts sys l first, check_accounts_ok accounts sys ls rest)

check_accounts_of :
    (accounts : List Account) (sys : Bool) (ls : List JournalLineRequest)
    → All (IsPostable accounts sys) ls
    → check_accounts accounts sys ls ≡ ok tt
unfolding check_accounts
check_accounts_of accounts sys [] h = refl
check_accounts_of accounts sys (l ∷ ls) h =
    rw (check_account_of accounts sys l h.0) (check_accounts_of accounts sys ls h.1)

check_amounts_line_iff : (l : JournalLineRequest) → (check_amounts_line l ≡ ok tt) ↔ IsOneSided l
unfolding check_amounts_line
check_amounts_line_iff l = (λ h. ground arith, λ h. ground arith)

check_amounts_ok : (ls : List JournalLineRequest) → check_amounts ls ≡ ok tt → All IsOneSided ls
unfolding check_amounts
check_amounts_ok [] h = tt
check_amounts_ok (l ∷ ls) h =
    let (u, first, rest) = >>=-eq_ok (check_amounts_line l) (λ _. check_amounts ls) h in
    ((check_amounts_line_iff l).0 first, check_amounts_ok ls rest)

check_amounts_of : (ls : List JournalLineRequest) → All IsOneSided ls → check_amounts ls ≡ ok tt
unfolding check_amounts
check_amounts_of [] h = refl
check_amounts_of (l ∷ ls) h = rw ((check_amounts_line_iff l).1 h.0) (check_amounts_of ls h.1)

check_balance_iff :
    (grain : ℕ) (ls : List JournalLineRequest)
    → (check_balance grain ls ≡ ok tt) ↔ AgreesRounded grain ls
unfolding check_balance
check_balance_iff grain ls =
    rw
      (
        money_sum-eq-sum grain (map (λ l. l.dr_base) ls),
        money_sum-eq-sum grain (map (λ l. l.cr_base) ls),
      )
      (λ h. eq_ℤ-eq_true _ _ (ground arith), λ h. rw (eq_ℤ_of_eq _ _ h))

-- The gates let a request through, into a period, exactly when the description holds.
pub gates_iff :
    (s : Ledger) (r : JournalEntryCreateRequest) (sys : Bool) (p : FiscalPeriod)
    → (gates s r sys ≡ ok p) ↔ Passes s r sys p
unfolding gates check_period
gates_iff s r sys p = (
  λ h.
      let (q, found, h1) = >>=-eq_ok (check_period r.posting_date s.periods) _ h in
      let (u, accounts, h2) = >>=-eq_ok (check_accounts s.accounts sys r.lines) _ h1 in
      let (v, amounts, h3) = >>=-eq_ok (check_amounts r.lines) _ h2 in
      let (w, balance, h4) = >>=-eq_ok (check_balance r.grain r.lines) _ h3 in
      record {
        period = single_of_ok _ p (found ∙ h4);
        accounts = check_accounts_ok s.accounts sys r.lines accounts;
        amounts = check_amounts_ok r.lines amounts;
        balance = (check_balance_iff r.grain r.lines).0 balance;
      },
  λ h. rw h.period (
      rw (check_accounts_of s.accounts sys r.lines h.accounts) (
        rw (check_amounts_of r.lines h.amounts)
          (rw ((check_balance_iff r.grain r.lines).1 h.balance)))),
)

-- With no open period for the date, the first gate stops everything.
pub gates_closed :
    (s : Ledger) (r : JournalEntryCreateRequest) (sys : Bool)
    → where_rows (covers r.posting_date) s.periods ≡ []
    → gates s r sys ≡ err (posting_error period_not_open)
unfolding gates check_period
gates_closed s r sys h = rw h refl

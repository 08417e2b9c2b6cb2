-- ===== src/Ledger/Accounts.antt =====
-- backend/app/modules/ledger/service.py, `AccountService`: the chart of accounts.
use Prim.Native.String.{String}
use text.Mathlib.Text.{◌==◌ as str_eq}
use text.Mathlib.TextEquality.{eq_iff}
use engage_os.Base.{
  ℕ, ◌+◌, ◌≡◌, refl, ◌≢◌, sym, ◌∙◌, ap, Bool, true, false, Option, none, some, List, [], ◌∷◌, ◌++◌,
  arith, inl, inr, where_rows, Bool-cases, Option-cases, All, All-append,
}
use engage_os.Core.Exceptions.{validation_error}
use engage_os.Core.Action.{Result, ok, err, Action, lift, gets, raise_if, ◌>>=◌, ◌>>◌}
use engage_os.Core.Table.{one_or_none}
use engage_os.Ledger.Models.{AccountType, AccountNormalSide, Account, Ledger}
use engage_os.Ledger.Posting.{is_some}
use engage_os.Core.Action.{Result-cases}

-- `AccountRepository.get_by_code`
abbrev pub get_by_code : String → List Account → Result (Option Account)
get_by_code code accounts = one_or_none (where_rows (λ a. str_eq a.code code) accounts)

pub record AccountCreateRequest : Type 0 where
  pub code : String
  pub type : AccountType
  pub normal_side : AccountNormalSide
  pub parent_id : Option ℕ
  pub is_control : Bool
  pub is_postable : Bool

abbrev pub new_account : AccountCreateRequest → ℕ → Account
new_account r id = record {
  id = id;
  code = r.code;
  type = r.type;
  normal_side = r.normal_side;
  parent_id = r.parent_id;
  is_control = r.is_control;
  is_postable = r.is_postable;
  is_active = true;
}

abbrev pub add_account : AccountCreateRequest → Action Ledger Account
add_account r s = (
  ok (new_account r s.next_id),
  record s { accounts = s.accounts ++ new_account r s.next_id ∷ []; next_id = s.next_id + 1 },
)

-- `AccountService.create`
unfoldable pub create : AccountCreateRequest → Action Ledger Account
create r = do
  accounts ← gets (λ (s : Ledger). s.accounts)
  existing ← lift (get_by_code r.code accounts)
  raise_if (is_some existing) validation_error
  add_account r

-- No two accounts have the same code.
abbrev pub DistinctCodes : List Account → Type 0
DistinctCodes [] = Unit
DistinctCodes (a ∷ rest) = All (λ b. a.code ≢ b.code) rest × DistinctCodes rest

no_rows :
    (code : String) (accounts : List Account) (o : Option Account)
    → get_by_code code accounts ≡ ok o
    → is_some o ≡ false
    → where_rows (λ a. str_eq a.code code) accounts ≡ []
no_rows code accounts o h n = none_found (where_rows (λ a. str_eq a.code code) accounts) o h n
  where
    none_found :
        (rows : List Account) (o : Option Account)
        → one_or_none rows ≡ ok o
        → is_some o ≡ false
        → rows ≡ []
    none_found [] o h n = refl
    none_found (x ∷ []) o h n = ground arith
    none_found (x ∷ y ∷ rows) o h n = cc

cons-ne_nil : {A : Type 0} {x : A} {xs : List A} → x ∷ xs ≡ [] → ⊥
cons-ne_nil h = cc

false-ne_true : false ≡ true → ⊥
false-ne_true h = cc

codes_differ :
    (code : String) (accounts : List Account)
    → where_rows (λ a. str_eq a.code code) accounts ≡ []
    → All (λ a. a.code ≢ code) accounts
codes_differ code [] h = tt
codes_differ code (a ∷ rest) h = elim (Bool-cases (str_eq a.code code)) [
  | inl e ↦ absurd (cons-ne_nil (rw e at h))
  | inr e ↦ (
    λ same. false-ne_true (sym e ∙ (eq_iff a.code code).1 same),
    codes_differ code rest (rw e at h),
  )
]

DistinctCodes-append_one :
    (accounts : List Account) (a : Account)
    → DistinctCodes accounts
    → All (λ b. b.code ≢ a.code) accounts
    → DistinctCodes (accounts ++ a ∷ [])
DistinctCodes-append_one [] a d h = (tt, tt)
DistinctCodes-append_one (x ∷ rest) a d h = (
  All-append (λ b. x.code ≢ b.code) rest (a ∷ []) d.0 (h.0, tt),
  DistinctCodes-append_one rest a d.1 h.1,
)

rows_of_differ :
    (code : String) (accounts : List Account)
    → All (λ a. a.code ≢ code) accounts
    → where_rows (λ a. str_eq a.code code) accounts ≡ []
rows_of_differ code [] h = refl
rows_of_differ code (a ∷ rest) h = elim (Bool-cases (str_eq a.code code)) [
  | inl e ↦ absurd (h.0 ((eq_iff a.code code).0 e))
  | inr e ↦ rw e (rows_of_differ code rest h.1)
]

-- What a call of `create` has done, by how it ended.
abbrev pub CreateOutcome : AccountCreateRequest → Ledger → Result Account × Ledger → Type 0
CreateOutcome r s (ok a, s') =
    All (λ b. b.code ≢ r.code) s.accounts
    × (s'.accounts ≡ s.accounts ++ a ∷ [])
    × (a.code ≡ r.code)
    × (DistinctCodes s.accounts → DistinctCodes s'.accounts)
CreateOutcome r s (err x, s') = (s' ≡ s) × ¬ All (λ b. b.code ≢ r.code) s.accounts

abbrev is_none_ok : {A : Type 0} → Result (Option A) → Bool
is_none_ok (ok none) = true
is_none_ok (ok (some a)) = false
is_none_ok (err x) = false

found_by_code :
    (code : String) (accounts : List Account) (r : Result (Option Account))
    → get_by_code code accounts ≡ r
    → (is_none_ok r ≡ false)
    → ¬ All (λ b. b.code ≢ code) accounts
found_by_code code accounts r h n differ =
    let empty : get_by_code code accounts ≡ ok none =
      rw (rows_of_differ code accounts differ) refl in
    false-ne_true (sym n ∙ ap is_none_ok (sym h ∙ empty))

-- Creating an account adds one account with the requested code, which no account had, and keeps the
-- codes distinct; or the code is taken, and the call raises and changes nothing.
pub create-Outcome : (r : AccountCreateRequest) (s : Ledger) → CreateOutcome r s (create r s)
unfolding create
create-Outcome r s = elim (Result-cases (get_by_code r.code s.accounts)) [
  | inl (o, e) ↦ elim (Option-cases o) [
    | inl missing ↦
        let rows = no_rows r.code s.accounts none (e ∙ ap ok missing) refl in
        let differ = codes_differ r.code s.accounts rows in
        rw (e, missing)
          (
            differ,
            refl,
            refl,
            λ d. DistinctCodes-append_one s.accounts (new_account r s.next_id) d differ,
          )
    | inr (a, taken) ↦
        rw (e, taken) (refl, found_by_code r.code s.accounts (ok (some a)) (e ∙ ap ok taken) refl)
  ]
  | inr (x, e) ↦ rw e (refl, found_by_code r.code s.accounts (err x) e refl)
]

-- ===== src/Ledger/Bridge/Posted.antt =====
-- What a bridge handler (bridge.py) leaves in the ledger: nothing, or its one entry.
use Prim.Native.String.{String}
use engage_os.Base.{ℕ, ◌≡◌, refl, sym, ap, ◌∙◌, ◌⊎◌, inl, inr, Option, none, some, List, [], ◌∷◌}
use engage_os.Core.Exceptions.{Error, posting_error, account_not_found}
use engage_os.Core.Action.{
  Result-cases, ⊤, Result, ok, err, Action, pure, ◌>>=◌, bind_to, bind_stop, bind_ok, bind_err,
}
use engage_os.Core.Money.{money_zero}
use engage_os.Ledger.Models.{Account, FiscalPeriod, JournalLineRequest, JournalEntry, Ledger}
use engage_os.Ledger.Gates.Passes.{Passes}
use engage_os.Ledger.Posting.{Posting, post}
use engage_os.Ledger.Posting.Sound.{Outcome, post-Outcome, with_entry}
use engage_os.Ledger.Accounts.{get_by_code}
use engage_os.Ledger.Bridge.{
  Payload, get_or, resolve_account_id, post_system, system_posting, debit_line, credit_line,
  for_customer, on_invoice_created, on_unit_dispatched,
}

-- A posting that no open period lets pass, since it breaks a rule.
abbrev pub IsRefused : Posting → Ledger → Type 0
IsRefused p s = (period : FiscalPeriod) → ¬ Passes s p.request p.is_system_generated period

-- A posting that met every rule has been written.
abbrev pub Written : (ℕ → ℕ) → Posting → Ledger → Ledger → Type 0
Written year p s s' =
    (period : FiscalPeriod) × Passes s p.request p.is_system_generated period
    × (s' ≡ with_entry year p period s)

none≢some : {A : Type 0} {a : A} → ok none ≡ ok (some a) → ⊥
none≢some h = cc

err≢ok : {A : Type 0} {x : Error} {a : A} → err x ≡ ok a → ⊥
err≢ok h = cc

the_same :
    {A : Type 0} {o : Result (Option A)} {a b : A} → o ≡ ok (some a) → o ≡ ok (some b) → a ≡ b
the_same h k = cc

resolved :
    (code : String) (s : Ledger)
    → ((x : Error) × (resolve_account_id code s ≡ (err x, s))
        × ((a : Account) → ¬ (get_by_code code s.accounts ≡ ok (some a))))
      ⊎ ((a : Account) × (get_by_code code s.accounts ≡ ok (some a))
          × (resolve_account_id code s ≡ (ok a.id, s)))
unfolding resolve_account_id
resolved code s = elim (Result-cases (get_by_code code s.accounts)) [
  | inl (none, e) ↦ inl (posting_error account_not_found, rw e refl, λ a h. none≢some (sym e ∙ h))
  | inl (some a, e) ↦ inr (a, e, rw e refl)
  | inr (x, e) ↦ inl (x, rw e refl, λ a h. err≢ok (sym e ∙ h))
]

module _ (year : ℕ → ℕ) (today : ℕ) where
  posted_by :
      (p : Posting) (s : Ledger) (o : Result JournalEntry × Ledger)
      → Outcome year p s o
      → ((o.1 ≡ s) × IsRefused p s) ⊎ Written year p s o.1
  posted_by p s (ok e, s') (period, passes, same, state) = inr (period, passes, state)
  posted_by p s (err x, s') (same, broken) = inl (same, broken)

  post_state : (p : Posting) (s : Ledger) → ((post year p >>= λ _. pure tt) s).1 ≡ (post year p s).1
  post_state p s = elim (Result-cases (post year p s).0) [
    | inl (a, e) ↦ ap (λ r. r.1) (bind_ok (post year p) (λ _. pure tt) s e)
    | inr (x, e) ↦ ap (λ r. r.1) (bind_err (post year p) (λ _. pure tt) s e)
  ]

  post_system_lem :
      (p : Payload) (source : String) (id : Option ℕ) (ls : List JournalLineRequest) (s : Ledger)
      → let s' = (post_system year today p source id ls s).1 in
        ((s' ≡ s) × IsRefused (system_posting today p source id ls) s)
        ⊎ Written year (system_posting today p source id ls) s s'
  post_system_lem p source id ls s =
      let posting = system_posting today p source id ls in
      rw (post_state posting s)
        (posted_by posting s (post year posting s) (post-Outcome year posting s))

  abbrev pub invoice_lines : Payload → ℕ → ℕ → List JournalLineRequest
  invoice_lines p ar revenue =
      for_customer p.customer_id (debit_line ar (get_or p.total money_zero))
      ∷ credit_line revenue (get_or p.total money_zero)
      ∷ []

  abbrev pub dispatch_lines : Payload → ℕ → ℕ → List JournalLineRequest
  dispatch_lines p cogs inventory =
      debit_line cogs (get_or p.cogs_total money_zero)
      ∷ credit_line inventory (get_or p.cogs_total money_zero)
      ∷ []

  -- A handler that looks two accounts up and posts lines on them.
  module _ (p : Payload) (a b source : String) (id : Option ℕ)
      (lines : ℕ → ℕ → List JournalLineRequest) where
    abbrev pub TwoPosted : Ledger → Ledger → Type 0
    TwoPosted s s' =
        (x : Account) × (y : Account) × (get_by_code a s.accounts ≡ ok (some x))
        × (get_by_code b s.accounts ≡ ok (some y))
        × Written year (system_posting today p source id (lines x.id y.id)) s s'

    -- No two accounts with these codes let the posting pass: one is missing, or a rule is broken.
    abbrev pub TwoRefused : Ledger → Type 0
    TwoRefused s =
        (x y : Account)
        → get_by_code a s.accounts ≡ ok (some x)
        → get_by_code b s.accounts ≡ ok (some y)
        → IsRefused (system_posting today p source id (lines x.id y.id)) s

    abbrev behind_both : ℕ → ℕ → Action Ledger ⊤
    behind_both i j = post_system year today p source id (lines i j)

    abbrev behind_first : ℕ → Action Ledger ⊤
    behind_first i = resolve_account_id b >>= behind_both i

    two_accounts_lem :
        (s : Ledger)
        → let s' = ((resolve_account_id a >>= behind_first) s).1 in
          ((s' ≡ s) × TwoRefused s) ⊎ TwoPosted s s'
    two_accounts_lem s = elim (resolved a s) [
      | inl (x, e, missing) ↦ inl (
        ap (λ r. r.1) (bind_stop (resolve_account_id a) behind_first s e),
        λ x y h k. absurd (missing x h),
      )
      | inr (x, found, e) ↦
          let first = bind_to (resolve_account_id a) behind_first s e in
          elim (resolved b s) [
            | inl (y, e', missing) ↦ inl (
              ap (λ r. r.1) (first ∙ bind_stop (resolve_account_id b) (behind_both x.id) s e'),
              λ x y h k. absurd (missing y k),
            )
            | inr (y, found', e') ↦
                let both = first ∙ bind_to (resolve_account_id b) (behind_both x.id) s e' in
                elim (post_system_lem p source id (lines x.id y.id) s) [
                  | inl (same, refused) ↦ inl (
                    ap (λ r. r.1) both ∙ same,
                    λ x' y' h k. rw (the_same found h, the_same found' k) at refused,
                  )
                  | inr (period, passes, state) ↦
                      inr (x, y, found, found', (period, passes, ap (λ r. r.1) both ∙ state))
                ]
          ]
    ]

  abbrev pub InvoicePosted : Payload → Ledger → Ledger → Type 0
  InvoicePosted p = TwoPosted p "1100" "4100" "sales_invoice" p.invoice_id (invoice_lines p)

  abbrev pub InvoiceRefused : Payload → Ledger → Type 0
  InvoiceRefused p = TwoRefused p "1100" "4100" "sales_invoice" p.invoice_id (invoice_lines p)

  pub on_invoice_created_lem :
      (p : Payload) (s : Ledger)
      → let s' = (on_invoice_created year today p s).1 in
        ((s' ≡ s) × InvoiceRefused p s) ⊎ InvoicePosted p s s'
  unfolding on_invoice_created
  on_invoice_created_lem p s =
      two_accounts_lem p "1100" "4100" "sales_invoice" p.invoice_id (invoice_lines p) s

  abbrev pub DispatchPosted : Payload → Ledger → Ledger → Type 0
  DispatchPosted p = TwoPosted p "5100" "1200" "dispatch" p.dispatch_id (dispatch_lines p)

  abbrev pub DispatchRefused : Payload → Ledger → Type 0
  DispatchRefused p = TwoRefused p "5100" "1200" "dispatch" p.dispatch_id (dispatch_lines p)

  pub on_unit_dispatched_lem :
      (p : Payload) (s : Ledger)
      → let s' = (on_unit_dispatched year today p s).1 in
        ((s' ≡ s) × DispatchRefused p s) ⊎ DispatchPosted p s s'
  unfolding on_unit_dispatched
  on_unit_dispatched_lem p s =
      two_accounts_lem p "5100" "1200" "dispatch" p.dispatch_id (dispatch_lines p) s

-- ===== src/Ledger/Bridge.antt =====
-- backend/app/modules/ledger/bridge.py: the handlers that post a journal entry for an inventory or
-- sales event, and their registration. `today` is `date.today()`; amounts are on the grid of
-- `money`, which leaves them as they are.
pub mod Valid
pub mod Posted
use Prim.Native.String.{String}
use engage_os.Base.{ℕ, ◌≡◌, Bool, true, false, Option, none, some, List, [], ◌∷◌, if◌then◌else◌}
use engage_os.Base.Int.{pos, ◌-ℤ◌, ltb_ℤ}
use engage_os.Core.Exceptions.{posting_error, account_not_found}
use engage_os.Core.Action.{⊤, Action, pure, or_raise, gets, lift, ◌>>=◌, ◌>>◌}
use engage_os.Core.Money.{Money, money_zero}
use engage_os.Core.Events.{Bus, subscribe_async}
use engage_os.Ledger.Models.{
  PartyType, JournalLineRequest, JournalEntry, VoucherType, JournalEntryCreateRequest, Ledger,
}
use engage_os.Ledger.Posting.{Posting, post}
use engage_os.Ledger.Accounts.{get_by_code}

-- The keyword arguments of an event, those that a handler reads; `session` says whether the
-- caller's session is among them.
pub record Payload : Type 0 where
  pub session : Bool
  pub posting_date : Option ℕ
  pub actor_id : Option ℕ
  pub total_value : Option Money
  pub cogs_total : Option Money
  pub total : Option Money
  pub amount : Option Money
  pub grn_id : Option ℕ
  pub dispatch_id : Option ℕ
  pub invoice_id : Option ℕ
  pub adjustment_id : Option ℕ
  pub customer_id : Option ℕ

-- `payload.get(key, default)`
abbrev pub get_or : {A : Type 0} → Option A → A → A
get_or none d = d
get_or (some a) d = a

-- `_resolve_account_id`
unfoldable pub resolve_account_id : String → Action Ledger ℕ
resolve_account_id code = do
  accounts ← gets (λ (s : Ledger). s.accounts)
  found ← lift (get_by_code code accounts)
  account ← or_raise found (posting_error account_not_found)
  pure account.id

-- `_linereq` with a debit, with a credit, and with a debit for a party.
abbrev pub debit_line : ℕ → Money → JournalLineRequest
debit_line account_id dr = record {
  account_id = account_id;
  dr = dr;
  cr = money_zero;
  dr_base = dr;
  cr_base = money_zero;
  currency_code = none;
  fx_rate = none;
  party_type = none;
  party_id = none;
}

abbrev pub credit_line : ℕ → Money → JournalLineRequest
credit_line account_id cr = record {
  account_id = account_id;
  dr = money_zero;
  cr = cr;
  dr_base = money_zero;
  cr_base = cr;
  currency_code = none;
  fx_rate = none;
  party_type = none;
  party_id = none;
}

abbrev pub for_customer : Option ℕ → JournalLineRequest → JournalLineRequest
for_customer customer_id l = record l {
  party_type = some PartyType.customer;
  party_id = customer_id;
}

-- The system posting that each handler ends in.
abbrev pub system_posting : ℕ → Payload → String → Option ℕ → List JournalLineRequest → Posting
system_posting today p source_type source_id lines = record {
  request = record {
    grain = 1;
    posting_date = get_or p.posting_date today;
    voucher_type = VoucherType.journal_entry;
    lines = lines;
    is_opening = false;
  };
  actor_id = p.actor_id;
  source_type = some source_type;
  source_id = source_id;
  is_system_generated = true;
}

pub data Handler : Type 0 where
  grn_confirmed unit_dispatched invoice_created adjustment_confirmed : Handler

-- `register_bridge_handlers`
unfoldable pub register_bridge_handlers : Bus Handler → Bus Handler
register_bridge_handlers bus =
    subscribe_async "inventory.adjustment_confirmed" adjustment_confirmed (
      subscribe_async "finance.invoice_created" invoice_created (
        subscribe_async "inventory.unit_dispatched" unit_dispatched
          (subscribe_async "inventory.grn_confirmed" grn_confirmed bus)))

abbrev pub no_subscribers : Bus Handler
no_subscribers = record { subscribers = []; async_subscribers = [] }

module _ (year : ℕ → ℕ) (today : ℕ) where
  abbrev pub post_system : Payload → String → Option ℕ → List JournalLineRequest → Action Ledger ⊤
  post_system p source_type source_id lines =
      post year (system_posting today p source_type source_id lines) >>= λ _. pure tt

  -- `_on_grn_confirmed`: Dr Inventory 1200 / Cr GRN Accrual 2200.
  unfoldable pub on_grn_confirmed : Payload → Action Ledger ⊤
  on_grn_confirmed p = do
    inv_acct ← resolve_account_id "1200"
    grn_acct ← resolve_account_id "2200"
    post_system p "grn" p.grn_id (
        debit_line inv_acct (get_or p.total_value money_zero)
        ∷ credit_line grn_acct (get_or p.total_value money_zero)
        ∷ [])

  -- `_on_unit_dispatched`: Dr COGS 5100 / Cr Inventory 1200.
  unfoldable pub on_unit_dispatched : Payload → Action Ledger ⊤
  on_unit_dispatched p = do
    cogs ← resolve_account_id "5100"
    inv ← resolve_account_id "1200"
    post_system p "dispatch" p.dispatch_id (
        debit_line cogs (get_or p.cogs_total money_zero)
        ∷ credit_line inv (get_or p.cogs_total money_zero)
        ∷ [])

  -- `_on_invoice_created`: Dr AR 1100 / Cr Revenue 4100.
  unfoldable pub on_invoice_created : Payload → Action Ledger ⊤
  on_invoice_created p = do
    ar ← resolve_account_id "1100"
    rev ← resolve_account_id "4100"
    post_system p "sales_invoice" p.invoice_id (
        for_customer p.customer_id (debit_line ar (get_or p.total money_zero))
        ∷ credit_line rev (get_or p.total money_zero)
        ∷ [])

  -- The lines of a stock adjustment: a gain if the amount is negative, a write-off otherwise.
  unfoldable pub adjustment_lines : ℕ → Money → Action Ledger (List JournalLineRequest)
  adjustment_lines inv amt =
      if ltb_ℤ amt (pos 0)
      then (resolve_account_id "4200" >>= λ income.
          pure (debit_line inv (pos 0 -ℤ amt) ∷ credit_line income (pos 0 -ℤ amt) ∷ []))
      else (resolve_account_id "5200" >>= λ write_off.
          pure (debit_line write_off amt ∷ credit_line inv amt ∷ []))

  -- `_on_adjustment_confirmed`
  unfoldable pub on_adjustment_confirmed : Payload → Action Ledger ⊤
  on_adjustment_confirmed p = do
    inv ← resolve_account_id "1200"
    lines ← adjustment_lines inv (get_or p.amount money_zero)
    post_system p "stock_adjustment" p.adjustment_id lines

  unfoldable pub dispatch : Handler → Payload → Action Ledger ⊤
  dispatch grn_confirmed p = on_grn_confirmed p
  dispatch unit_dispatched p = on_unit_dispatched p
  dispatch invoice_created p = on_invoice_created p
  dispatch adjustment_confirmed p = on_adjustment_confirmed p

  -- A handler returns at once if no session came with the event.
  unfoldable pub run_handler : Handler → Payload → Action Ledger ⊤
  run_handler h p = if p.session then dispatch h p else pure tt

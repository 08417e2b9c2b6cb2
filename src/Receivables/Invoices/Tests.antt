-- ===== src/Receivables/Invoices/Tests.antt =====
-- An invoice from its request to its journal entry, and the theorems at it.
use Prim.Native.String.{String}
use engage_os.Base.{ℕ, ◌/◌, ◌≡◌, refl, true, none, some, [], ◌∷◌, length}
use engage_os.Base.Int.{pos, ◌+ℤ◌, ◌*ℤ◌}
use engage_os.Core.Money.{money, round_half_up, money_sum}
use engage_os.Core.Events.{emit_event_async}
use engage_os.Ledger.Gates.{
  gates, check_period, check_accounts, check_account, check_amounts, check_amounts_line,
  check_balance,
}
use engage_os.Ledger.Posting.{post, bump, code_of, next_value}
use engage_os.Ledger.Bridge.{
  register_bridge_handlers, run_handler, dispatch, on_invoice_created, resolve_account_id,
}
use engage_os.Core.Action.{ok}
use engage_os.Ledger.Models.{AccountType, AccountNormalSide, Account, PeriodStatus, Ledger}
use engage_os.Receivables.Models.{InvoiceStatus, SalesInvoice, invoice_model, Receivables}
use engage_os.Receivables.Invoices.{
  InvoiceCreateRequest, create, create_lines, add_invoice, Books, emit, issue, void_invoice,
}
use engage_os.Receivables.Invoices.Issued.{void_invoice_ledger}

abbrev account : ℕ → String → Account
account id code = record {
  id = id;
  code = code;
  type = AccountType.asset;
  normal_side = AccountNormalSide.debit;
  parent_id = none;
  is_control = true;
  is_postable = true;
  is_active = true;
}

abbrev shop_ledger : Ledger
shop_ledger = record {
  accounts = account 1 "1100" ∷ account 2 "4100" ∷ [];
  periods =
      record {
        id = 7;
        fiscal_year = 2;
        month = 1;
        start_date = 832;
        end_date = 862;
        status = PeriodStatus.open_period;
      }
      ∷ [];
  entries = [];
  sequences = [];
  audit = [];
  next_id = 10;
}

abbrev no_sales : Receivables
no_sales = record {
  invoices = [];
  payments = [];
  allocations = [];
  lines = [];
  customers = 3 ∷ [];
  next_id = 20;
}

-- Three pieces at 9.99 each, and half a piece at 0.01, with a tax of 5 per cent.
abbrev sale : InvoiceCreateRequest
sale = record {
  customer_id = 3;
  posting_date = 840;
  due_date = 860;
  lines =
      record { qty = pos 300; unit_price = pos 99900; tax_rate = pos 500 }
      ∷ record { qty = pos 50; unit_price = pos 100; tax_rate = pos 500 }
      ∷ [];
}

abbrev sold : SalesInvoice
sold = record {
  id = 20;
  customer_id = 3;
  posting_date = 840;
  due_date = 860;
  subtotal = pos 299750;
  tax_total = pos 14988;
  total = pos 314738;
  status = InvoiceStatus.draft;
  je_id = none;
}

created : (create sale no_sales).0 ≡ ok (some sold)
unfolding create create_lines add_invoice ◌+ℤ◌ money ◌*ℤ◌ round_half_up
created = refl

abbrev shop : Books
shop = record { receivables = record no_sales { invoices = sold ∷ [] }; ledger = shop_ledger }

abbrev year : ℕ → ℕ
year d = d / 400

entry_posted : length (issue year 841 20 5 shop).1.ledger.entries ≡ 1
unfolding issue emit emit_event_async register_bridge_handlers run_handler dispatch
    on_invoice_created resolve_account_id post gates check_period check_accounts check_account
    check_amounts check_amounts_line check_balance money_sum money round_half_up ◌+ℤ◌ bump code_of
    next_value
entry_posted = refl

void_invoice_ledger_example :
    (void_invoice year 841 20 5 (issue year 841 20 5 shop).1).1.ledger
    ≡ (issue year 841 20 5 shop).1.ledger
void_invoice_ledger_example = void_invoice_ledger year 841 20 5 (issue year 841 20 5 shop).1

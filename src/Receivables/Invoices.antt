-- ===== src/Receivables/Invoices.antt =====
-- backend/app/modules/receivables/service.py: `InvoiceService.create`, `issue` and `void`. Issuing and
-- voiding emit events in the session, which holds the tables of the ledger too; `no_payload` is the
-- part of the payload that no handler of these events reads.
pub mod Created
pub mod Issued
mod Tests
use Prim.Native.String.{String}
use engage_os.Base.{
  ℕ, ◌+◌, ◌≡◌, Bool, true, false, not, ◌||◌, Option, none, some, List, [], ◌∷◌, ◌++◌, ◌==◌,
  if◌then◌else◌,
}
use engage_os.Base.Int.{ℤ, pos, ◌+ℤ◌, ◌*ℤ◌}
use engage_os.Core.Exceptions.{Error, not_found, conflict}
use engage_os.Core.Action.{
  ⊤, Action, Result, ok, err, gets, modify, raise_if, or_raise, pure, ◌>>=◌, ◌>>◌,
}
use engage_os.Core.Money.{Money, money, money_zero}
use engage_os.Core.Table.{get, update}
use engage_os.Core.Events.{emit_event_async}
use engage_os.Ledger.Models.{Ledger}
use engage_os.Ledger.Bridge.{Payload, run_handler, register_bridge_handlers, no_subscribers}
use engage_os.Receivables.Models.{
  InvoiceStatus, draft, issued, paid, overdue, void, SalesInvoice, invoice_model, SalesInvoiceLine,
  Receivables,
}

pub record InvoiceLineRequest : Type 0 where
  pub qty : ℤ
  pub unit_price : Money
  pub tax_rate : ℤ

pub record InvoiceCreateRequest : Type 0 where
  pub customer_id : ℕ
  pub posting_date : ℕ
  pub due_date : ℕ
  pub lines : List InvoiceLineRequest

-- `_compute_line`: a product has the digits of both factors, and `money` rounds them off.
abbrev pub line_total_of : InvoiceLineRequest → Money
line_total_of r = money 100 (r.qty *ℤ r.unit_price)

abbrev pub tax_amount_of : InvoiceLineRequest → Money
tax_amount_of r = money 10000 (line_total_of r *ℤ r.tax_rate)

abbrev pub line_gross_of : InvoiceLineRequest → Money
line_gross_of r = line_total_of r +ℤ tax_amount_of r

abbrev pub new_line : ℕ → InvoiceLineRequest → SalesInvoiceLine
new_line invoice_id r = record {
  invoice_id = invoice_id;
  qty = r.qty;
  unit_price = r.unit_price;
  line_total = line_total_of r;
  tax_rate = r.tax_rate;
  tax_amount = tax_amount_of r;
}

-- `subtotal`, `tax_total` and `total` of the loop.
pub record Totals : Type 0 where
  pub subtotal : Money
  pub tax_total : Money
  pub total : Money

abbrev pub add_line : SalesInvoiceLine → Action Receivables ⊤
add_line l = modify (λ s. record s { lines = s.lines ++ l ∷ [] })

unfoldable pub create_lines : ℕ → List InvoiceLineRequest → Totals → Action Receivables Totals
create_lines invoice_id [] t = pure t
create_lines invoice_id (r ∷ rs) t =
    add_line (new_line invoice_id r)
    >> create_lines invoice_id rs (record {
      subtotal = t.subtotal +ℤ line_total_of r;
      tax_total = t.tax_total +ℤ tax_amount_of r;
      total = t.total +ℤ line_gross_of r;
    })

abbrev pub draft_invoice : InvoiceCreateRequest → ℕ → SalesInvoice
draft_invoice r i = record {
  id = i;
  customer_id = r.customer_id;
  posting_date = r.posting_date;
  due_date = r.due_date;
  subtotal = money_zero;
  tax_total = money_zero;
  total = money_zero;
  status = InvoiceStatus.draft;
  je_id = none;
}

unfoldable pub add_invoice : InvoiceCreateRequest → Action Receivables ℕ
add_invoice r s = (
  ok s.next_id,
  record s { invoices = s.invoices ++ draft_invoice r s.next_id ∷ []; next_id = s.next_id + 1 },
)

abbrev pub set_totals : Totals → SalesInvoice → SalesInvoice
set_totals t invoice = record invoice {
  subtotal = t.subtotal;
  tax_total = t.tax_total;
  total = t.total;
}

abbrev pub is_customer : ℕ → List ℕ → Bool
is_customer i [] = false
is_customer i (j ∷ js) = if j == i then true else is_customer i js

abbrev pub no_totals : Totals
no_totals = record { subtotal = money_zero; tax_total = money_zero; total = money_zero }

abbrev pub store_totals : ℕ → Totals → Action Receivables ⊤
store_totals i t = modify (λ s. record s { invoices = update i (set_totals t) s.invoices })

-- `InvoiceService.create`
unfoldable pub create : InvoiceCreateRequest → Action Receivables (Option SalesInvoice)
create r = do
  customers ← gets (λ (s : Receivables). s.customers)
  raise_if (not (is_customer r.customer_id customers)) not_found
  i ← add_invoice r
  totals ← create_lines i r.lines no_totals
  store_totals i totals
  gets (λ (s : Receivables). get i s.invoices)

-- What a session of these methods sees.
pub record Books : Type 0 where
  pub receivables : Receivables
  pub ledger : Ledger

abbrev pub in_ledger : {A : Type 0} → Action Ledger A → Action Books A
in_ledger m b = let (r, l) = m b.ledger in (r, record b { ledger = l })

abbrev pub no_payload : Payload
no_payload = record {
  session = true;
  posting_date = none;
  actor_id = none;
  total_value = none;
  cogs_total = none;
  total = none;
  amount = none;
  grn_id = none;
  dispatch_id = none;
  invoice_id = none;
  adjustment_id = none;
  customer_id = none;
}

abbrev pub issued_payload : SalesInvoice → ℕ → Payload
issued_payload invoice actor_id = record no_payload {
  posting_date = some invoice.posting_date;
  actor_id = some actor_id;
  total = some invoice.total;
  invoice_id = some invoice.id;
  customer_id = some invoice.customer_id;
}

abbrev pub is_draft : InvoiceStatus → Bool
is_draft draft = true
is_draft issued = false
is_draft paid = false
is_draft overdue = false
is_draft void = false

abbrev pub is_voidable : InvoiceStatus → Bool
is_voidable draft = true
is_voidable issued = true
is_voidable paid = false
is_voidable overdue = false
is_voidable void = false

abbrev pub set_status : InvoiceStatus → SalesInvoice → SalesInvoice
set_status st invoice = record invoice { status = st }

abbrev pub put_status : ℕ → InvoiceStatus → Books → Books
put_status i st b = record b {
  receivables = record b.receivables { invoices = update i (set_status st) b.receivables.invoices };
}

module _ (year : ℕ → ℕ) (today : ℕ) where
  unfoldable pub emit : String → Payload → Action Books ⊤
  emit name payload = in_ledger (
      emit_event_async (run_handler year today) (register_bridge_handlers no_subscribers) name
        payload)

  -- `InvoiceService.issue`
  unfoldable pub issue : ℕ → ℕ → Action Books (Option SalesInvoice)
  issue i actor_id = do
    found ← gets (λ (b : Books). get i b.receivables.invoices)
    invoice ← or_raise found not_found
    raise_if (not (is_draft invoice.status)) conflict
    modify (put_status invoice.id InvoiceStatus.issued)
    emit "finance.invoice_created" (issued_payload invoice actor_id)
    gets (λ (b : Books). get invoice.id b.receivables.invoices)

  -- The event of a voided invoice: its name has no subscriber.
  unfoldable pub emit_void : Option ℕ → ℕ → Action Books ⊤
  emit_void none actor_id = pure tt
  emit_void (some je_id) actor_id =
      emit "finance.invoice_voided" (record no_payload { actor_id = some actor_id })

  -- `InvoiceService.void`
  unfoldable pub void_invoice : ℕ → ℕ → Action Books SalesInvoice
  void_invoice i actor_id = do
    found ← gets (λ (b : Books). get i b.receivables.invoices)
    invoice ← or_raise found not_found
    raise_if (not (is_voidable invoice.status)) conflict
    modify (put_status invoice.id InvoiceStatus.void)
    emit_void invoice.je_id actor_id
    after ← gets (λ (b : Books). get invoice.id b.receivables.invoices)
    or_raise after not_found

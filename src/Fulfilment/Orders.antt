-- ===== src/Fulfilment/Orders.antt =====
-- backend/app/modules/fulfilment/service.py: `SOService.create` and `SOService.confirm`, with the
-- credit check of backend/app/modules/receivables/service.py (`check_credit_limit`).
pub mod Created
pub mod Credit
mod Tests
use engage_os.Base.{
  ℕ, ◌+◌, Bool, true, false, not, ◌&&◌, Option, none, some, List, [], ◌∷◌, ◌++◌, map, ◌==◌,
  where_rows, if◌then◌else◌,
}
use engage_os.Base.Int.{pos, ◌+ℤ◌, ◌-ℤ◌, ◌*ℤ◌, leb_ℤ, sum}
use engage_os.Core.Exceptions.{not_found, conflict}
use engage_os.Core.Action.{⊤, Action, gets, modify, raise_if, or_raise, pure, ◌>>=◌, ◌>>◌}
use engage_os.Core.Money.{Money, money, money_zero}
use engage_os.Core.Table.{Model, get, update}
use engage_os.Inventory.Models.{Qty}
use engage_os.Receivables.Models.{SalesInvoice}
use engage_os.Receivables.Outstanding.{sum_outstanding}
use engage_os.Fulfilment.{
  SoStatus, so_draft, so_confirmed, so_dispatched, so_invoiced, so_cancelled, SalesOrder,
  order_model, SalesOrderLine,
}

-- `credit_limit` is what `getattr(contact, "credit_limit", None)` reads.
pub record Contact : Type 0 where
  pub id : ℕ
  pub credit_limit : Option Money

instance abbrev pub contact_model : Model Contact
contact_model = record { pk = λ c. c.id }

pub data CreditNoteStatus : Type 0 where
  cn_draft cn_issued cn_void : CreditNoteStatus

pub record CreditNote : Type 0 where
  pub customer_id : ℕ
  pub amount : Money
  pub status : CreditNoteStatus

-- What a session of these methods sees.
pub record Desk : Type 0 where
  pub contacts : List Contact
  pub invoices : List SalesInvoice
  pub credit_notes : List CreditNote
  pub orders : List SalesOrder
  pub order_lines : List SalesOrderLine
  pub next_id : ℕ

pub record SoLineRequest : Type 0 where
  pub item_id : Option ℕ
  pub qty : Qty
  pub unit_price : Money

pub record SoCreateRequest : Type 0 where
  pub customer_id : ℕ
  pub lines : List SoLineRequest

abbrev pub is_note_issued : CreditNoteStatus → Bool
is_note_issued cn_draft = false
is_note_issued cn_issued = true
is_note_issued cn_void = false

abbrev pub note_of : ℕ → CreditNote → Bool
note_of customer_id n = (n.customer_id == customer_id) && is_note_issued n.status

unfoldable pub credit_notes_total : ℕ → List CreditNote → Money
credit_notes_total customer_id notes =
    sum (map (λ (n : CreditNote). n.amount) (where_rows (note_of customer_id) notes))

-- The part of `check_credit_limit` behind the limit.
abbrev pub has_available : Option Money → Money → Money → Money → Bool
has_available none outstanding notes amount = true
has_available (some credit_limit) outstanding notes amount =
    if leb_ℤ credit_limit (pos 0)
    then true
    else leb_ℤ amount (credit_limit -ℤ (outstanding -ℤ notes))

-- `check_credit_limit`
unfoldable pub check_credit_limit : ℕ → Money → Action Desk Bool
check_credit_limit customer_id amount = do
  found ← gets (λ (s : Desk). get customer_id s.contacts)
  contact ← or_raise found not_found
  gets (λ (s : Desk).
      has_available contact.credit_limit (sum_outstanding (some customer_id) s.invoices)
        (credit_notes_total customer_id s.credit_notes) amount)

abbrev pub is_so_draft : SoStatus → Bool
is_so_draft so_draft = true
is_so_draft so_confirmed = false
is_so_draft so_dispatched = false
is_so_draft so_invoiced = false
is_so_draft so_cancelled = false

unfoldable pub so_total : ℕ → List SalesOrderLine → Money
so_total so_id ls = sum (
    map (λ (l : SalesOrderLine). l.line_total)
      (where_rows (λ (l : SalesOrderLine). l.so_id == so_id) ls))

abbrev pub set_so_confirmed : ℕ → Desk → Desk
set_so_confirmed i s = record s {
  orders = update i (λ (o : SalesOrder). record o { status = so_confirmed }) s.orders;
}

-- `confirm` once the credit has been checked.
unfoldable pub confirm_checked : SalesOrder → Bool → Action Desk (Option SalesOrder)
confirm_checked o has_credit = do
  raise_if (not has_credit) conflict
  modify (set_so_confirmed o.id)
  gets (λ (s : Desk). get o.id s.orders)

unfoldable pub confirm_draft : SalesOrder → Action Desk (Option SalesOrder)
confirm_draft o s =
    (check_credit_limit o.customer_id (so_total o.id s.order_lines) >>= confirm_checked o) s

-- `SOService.confirm`
unfoldable pub confirm_order : ℕ → Action Desk (Option SalesOrder)
confirm_order i = do
  found ← gets (λ (s : Desk). get i s.orders)
  o ← or_raise found not_found
  raise_if (not (is_so_draft o.status)) conflict
  confirm_draft o

abbrev pub new_order_line : ℕ → SoLineRequest → SalesOrderLine
new_order_line so_id r = record {
  so_id = so_id;
  item_id = r.item_id;
  qty = r.qty;
  line_total = money 100 (r.qty *ℤ r.unit_price);
}

unfoldable pub create_order_lines : ℕ → List SoLineRequest → Action Desk ⊤
create_order_lines so_id [] = pure tt
create_order_lines so_id (r ∷ rs) =
    modify (λ (s : Desk). record s { order_lines = s.order_lines ++ new_order_line so_id r ∷ [] })
    >> create_order_lines so_id rs

abbrev pub new_order : ℕ → ℕ → SalesOrder
new_order i customer_id = record { id = i; customer_id = customer_id; status = so_draft }

abbrev pub add_order : ℕ → ℕ → Desk → Desk
add_order i customer_id s = record s {
  orders = s.orders ++ new_order i customer_id ∷ [];
  next_id = s.next_id + 1;
}

-- `SOService.create`
unfoldable pub create_order : SoCreateRequest → Action Desk (Option SalesOrder)
create_order r = do
  found ← gets (λ (s : Desk). get r.customer_id s.contacts)
  customer ← or_raise found not_found
  i ← gets (λ (s : Desk). s.next_id)
  modify (add_order i r.customer_id)
  create_order_lines i r.lines
  gets (λ (s : Desk). get i s.orders)

-- ===== src/Fulfilment.antt =====
-- backend/app/modules/fulfilment/service.py: `DispatchService.confirm`, over the tables of the stock
-- and, behind the event bus, the ledger. Quantities are in hundredths.
pub mod Value
pub mod Confirmed
pub mod Sold
pub mod Orders
mod Tests
use engage_os.Base.{
  ℕ, ◌+◌, ◌≡◌, Bool, true, false, not, ◌&&◌, Option, none, some, List, [], ◌∷◌, ◌++◌, ◌==◌, ltb,
  where_rows, if◌then◌else◌,
}
use engage_os.Base.Int.{ℤ, pos, ◌+ℤ◌, ◌-ℤ◌, ◌*ℤ◌, ltb_ℤ}
use engage_os.Core.Exceptions.{Error, not_found, conflict}
use engage_os.Core.Action.{
  ⊤, Action, Result, ok, err, gets, modify, raise_if, or_raise, pure, ◌>>=◌, ◌>>◌,
}
use engage_os.Core.Money.{Money, money, money_zero}
use engage_os.Core.Table.{Model, get, update}
use engage_os.Core.Events.{emit_event_async}
use engage_os.Inventory.Models.{
  Qty, minus_one_piece, StockUnit, unit_model, StockBalance, StockVoucherType, StockLedgerEntry,
  Stock, is_in_stock,
}
use engage_os.Inventory.Repository.{add_entry, put_unit, is_balance_of}
use engage_os.Inventory.Stock.{sell}
use engage_os.Ledger.Models.{Ledger}
use engage_os.Ledger.Bridge.{Payload, run_handler, register_bridge_handlers, no_subscribers}

pub data SoStatus : Type 0 where
  so_draft so_confirmed so_dispatched so_invoiced so_cancelled : SoStatus

pub data DispatchStatus : Type 0 where
  dp_draft dp_confirmed dp_cancelled : DispatchStatus

pub record SalesOrder : Type 0 where
  pub id : ℕ
  pub customer_id : ℕ
  pub status : SoStatus

pub record SalesOrderLine : Type 0 where
  pub so_id : ℕ
  pub item_id : Option ℕ
  pub qty : Qty
  pub line_total : Money

pub record Dispatch : Type 0 where
  pub id : ℕ
  pub so_id : Option ℕ
  pub dispatch_date : ℕ
  pub status : DispatchStatus

pub record DispatchLine : Type 0 where
  pub dispatch_id : ℕ
  pub stock_unit_id : Option ℕ
  pub item_id : Option ℕ
  pub qty : Qty
  pub unit_cost : Money

instance abbrev pub order_model : Model SalesOrder
order_model = record { pk = λ o. o.id }

instance abbrev pub dispatch_model : Model Dispatch
dispatch_model = record { pk = λ d. d.id }

-- What a session of these methods sees; `warehouses` holds the warehouse of each location.
pub record Shop : Type 0 where
  pub stock : Stock
  pub warehouses : List (ℕ × ℕ)
  pub orders : List SalesOrder
  pub order_lines : List SalesOrderLine
  pub dispatches : List Dispatch
  pub dispatch_lines : List DispatchLine
  pub ledger : Ledger

-- A serialized line: the unit, which is in stock, is sold to the dispatch.
unfoldable pub confirm_unit : Dispatch → StockUnit → Action Stock Money
confirm_unit d u = do
  raise_if (not (is_in_stock u.status)) conflict
  put_unit u.id (sell d.id)
  add_entry (record {
    posting_date = d.dispatch_date;
    item_id = u.item_id;
    warehouse_id = none;
    stock_unit_id = some u.id;
    voucher_type = StockVoucherType.dispatched;
    voucher_id = d.id;
    qty_change = minus_one_piece;
    valuation_rate = u.purchase_cost;
    stock_value_change = pos 0 -ℤ u.purchase_cost;
    qty_after = pos 0;
    is_cancelled = false;
  })
  pure u.purchase_cost

unfoldable pub confirm_serialized : Dispatch → ℕ → Action Stock Money
confirm_serialized d i = do
  found ← gets (λ (s : Stock). get i s.units)
  u ← or_raise found not_found
  confirm_unit d u

-- The balance of the item with enough of it, at the location that comes first.
abbrev pub first_location : StockBalance → Option StockBalance → Option StockBalance
first_location b none = some b
first_location b (some c) = if ltb c.location_id b.location_id then some c else some b

unfoldable pub balance_with : ℕ → Qty → List StockBalance → Option StockBalance
balance_with item qty [] = none
balance_with item qty (b ∷ bs) =
    if (b.item_id == item) && not (ltb_ℤ b.qty qty)
    then first_location b (balance_with item qty bs)
    else balance_with item qty bs

abbrev pub unit_cost_of : DispatchLine → StockBalance → Money
unit_cost_of line b =
    if ltb_ℤ (pos 0) line.unit_cost
    then line.unit_cost
    else if ltb_ℤ (pos 0) b.avg_cost
    then b.avg_cost
    else money_zero

abbrev pub warehouse_of : ℕ → List (ℕ × ℕ) → Option ℕ
warehouse_of l [] = none
warehouse_of l ((m, w) ∷ rest) = if m == l then some w else warehouse_of l rest

abbrev pub deduct : StockBalance → Qty → List StockBalance → List StockBalance
deduct b qty [] = []
deduct b qty (c ∷ cs) =
    if is_balance_of b.item_id b.location_id c
    then record c { qty = c.qty -ℤ qty } ∷ cs
    else c ∷ deduct b qty cs

unfoldable pub confirm_from :
    Dispatch → List (ℕ × ℕ) → ℕ → DispatchLine → StockBalance → Action Stock Money
confirm_from d warehouses item line b = do
  modify (λ s. record s { balances = deduct b line.qty s.balances })
  add_entry (record {
    posting_date = d.dispatch_date;
    item_id = item;
    warehouse_id = warehouse_of b.location_id warehouses;
    stock_unit_id = none;
    voucher_type = StockVoucherType.dispatched;
    voucher_id = d.id;
    qty_change = pos 0 -ℤ line.qty;
    valuation_rate = unit_cost_of line b;
    stock_value_change = pos 0 -ℤ money 100 (line.qty *ℤ unit_cost_of line b);
    qty_after = b.qty -ℤ line.qty;
    is_cancelled = false;
  })
  pure (money 100 (line.qty *ℤ unit_cost_of line b))

unfoldable pub confirm_bulk : Dispatch → List (ℕ × ℕ) → ℕ → DispatchLine → Action Stock Money
confirm_bulk d warehouses item line = do
  found ← gets (λ (s : Stock). balance_with item line.qty s.balances)
  b ← or_raise found conflict
  confirm_from d warehouses item line b

-- A line by what it names; one that names neither a unit nor an item costs nothing.
unfoldable pub confirm_by :
    Option ℕ → Option ℕ → Dispatch → List (ℕ × ℕ) → DispatchLine → Action Stock Money
confirm_by (some i) item d warehouses line = confirm_serialized d i
confirm_by none (some item) d warehouses line =
    if ltb_ℤ (pos 0) line.qty then confirm_bulk d warehouses item line else pure money_zero
confirm_by none none d warehouses line = pure money_zero

unfoldable pub confirm_lines :
    Dispatch → List (ℕ × ℕ) → List DispatchLine → Money → Action Stock Money
confirm_lines d warehouses [] total_cogs = pure total_cogs
confirm_lines d warehouses (line ∷ lines) total_cogs =
    confirm_by line.stock_unit_id line.item_id d warehouses line >>= λ cost.
    confirm_lines d warehouses lines (total_cogs +ℤ cost)

abbrev pub in_stock_of : {A : Type 0} → Action Stock A → Action Shop A
in_stock_of m s = let (r, t) = m s.stock in (r, record s { stock = t })

-- `_maybe_mark_so_dispatched`: the quantity of an item in the confirmed dispatches of the order.
abbrev pub is_confirmed : Option Dispatch → ℕ → Bool
is_confirmed none so_id = false
is_confirmed (some d) so_id = elim d.status [
  | dp_draft ↦ false
  | dp_confirmed ↦ elim d.so_id [ none ↦ false | some o ↦ o == so_id ]
  | dp_cancelled ↦ false
]

abbrev pub is_item : Option ℕ → ℕ → Bool
is_item none item = false
is_item (some i) item = i == item

unfoldable pub dispatched_qty : ℕ → ℕ → List Dispatch → List DispatchLine → Qty
dispatched_qty so_id item ds [] = pos 0
dispatched_qty so_id item ds (l ∷ ls) =
    if is_confirmed (get l.dispatch_id ds) so_id && is_item l.item_id item
    then l.qty +ℤ dispatched_qty so_id item ds ls
    else dispatched_qty so_id item ds ls

abbrev pub is_covered : Option ℕ → Qty → ℕ → List Dispatch → List DispatchLine → Bool
is_covered none qty so_id ds ls = true
is_covered (some item) qty so_id ds ls = not (ltb_ℤ (dispatched_qty so_id item ds ls) qty)

unfoldable pub all_dispatched : ℕ → List Dispatch → List DispatchLine → List SalesOrderLine → Bool
all_dispatched so_id ds ls [] = true
all_dispatched so_id ds ls (o ∷ os) =
    if o.so_id == so_id
    then is_covered o.item_id o.qty so_id ds ls && all_dispatched so_id ds ls os
    else all_dispatched so_id ds ls os

abbrev pub is_so_confirmed : SoStatus → Bool
is_so_confirmed so_confirmed = true
is_so_confirmed so_draft = false
is_so_confirmed so_dispatched = false
is_so_confirmed so_invoiced = false
is_so_confirmed so_cancelled = false

abbrev pub mark_dispatched : ℕ → Option SalesOrder → Shop → Shop
mark_dispatched so_id none s = s
mark_dispatched so_id (some o) s =
    if is_so_confirmed o.status && all_dispatched so_id s.dispatches s.dispatch_lines s.order_lines
    then record s {
      orders = update so_id (λ (x : SalesOrder). record x { status = so_dispatched }) s.orders;
    }
    else s

abbrev pub maybe_mark_so_dispatched : Option ℕ → Shop → Shop
maybe_mark_so_dispatched none s = s
maybe_mark_so_dispatched (some so_id) s = mark_dispatched so_id (get so_id s.orders) s

abbrev pub is_dispatch_draft : DispatchStatus → Bool
is_dispatch_draft dp_draft = true
is_dispatch_draft dp_confirmed = false
is_dispatch_draft dp_cancelled = false

abbrev pub set_confirmed : ℕ → Shop → Shop
set_confirmed i s = record s {
  dispatches = update i (λ (x : Dispatch). record x { status = dp_confirmed }) s.dispatches;
}

abbrev pub dispatched_payload : Dispatch → Money → ℕ → Payload
dispatched_payload d total_cogs actor_id = record {
  session = true;
  posting_date = some d.dispatch_date;
  actor_id = some actor_id;
  total_value = none;
  cogs_total = some total_cogs;
  total = none;
  amount = none;
  grn_id = none;
  dispatch_id = some d.id;
  invoice_id = none;
  adjustment_id = none;
  customer_id = none;
}

abbrev pub lines_of : ℕ → List DispatchLine → List DispatchLine
lines_of i ls = where_rows (λ l. l.dispatch_id == i) ls

module _ (year : ℕ → ℕ) (today : ℕ) where
  unfoldable pub emit_dispatched : Payload → Action Shop ⊤
  emit_dispatched payload s =
      let (r, l) =
        emit_event_async (run_handler year today) (register_bridge_handlers no_subscribers)
          "inventory.unit_dispatched" payload s.ledger in
      (r, record s { ledger = l })

  -- `confirm` once its lines have been confirmed.
  unfoldable pub finish_confirm : Dispatch → ℕ → Money → Action Shop (Option Dispatch)
  finish_confirm d actor_id total_cogs = do
    modify (set_confirmed d.id)
    emit_dispatched (dispatched_payload d total_cogs actor_id)
    modify (maybe_mark_so_dispatched d.so_id)
    gets (λ (s : Shop). get d.id s.dispatches)

  unfoldable pub confirm_found : Dispatch → ℕ → Action Shop (Option Dispatch)
  confirm_found d actor_id s =
      (in_stock_of (confirm_lines d s.warehouses (lines_of d.id s.dispatch_lines) money_zero)
          >>= finish_confirm d actor_id)
        s

  -- `DispatchService.confirm`
  unfoldable pub confirm : ℕ → ℕ → Action Shop (Option Dispatch)
  confirm i actor_id = do
    found ← gets (λ (s : Shop). get i s.dispatches)
    d ← or_raise found not_found
    raise_if (not (is_dispatch_draft d.status)) conflict
    confirm_found d actor_id

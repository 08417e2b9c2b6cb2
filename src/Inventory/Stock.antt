-- ===== src/Inventory/Stock.antt =====
-- backend/app/modules/inventory/service.py: `StockService`, up to the event of `adjust_stock`. A unit
-- that a query has returned is read again by its id where the source reads the session's object.
pub mod Levels
pub mod Stocked
pub mod Kept
use engage_os.Base.{
  ℕ, ◌+◌, ◌≡◌, Bool, true, false, not, Option, none, some, List, [], ◌∷◌, ◌++◌, ◌==◌, map, length,
  if◌then◌else◌,
}
use engage_os.Base.Int.{ℤ, pos, negsuc, ◌+ℤ◌, ◌-ℤ◌, ◌*ℤ◌, ltb_ℤ}
use engage_os.Core.Exceptions.{Error, not_found, conflict, integrity_error}
use engage_os.Core.Action.{
  ⊤, Action, Result, ok, err, gets, modify, raise_if, or_raise, pure, ◌>>=◌, ◌>>◌,
}
use engage_os.Core.Money.{Money, money, money_zero, magnitude}
use engage_os.Core.Table.{get, update}
use engage_os.Inventory.Models.{
  Qty, one_piece, minus_one_piece, Item, item_model, ItemNature, StockUnit, unit_model,
  StockUnitStatus, StockBalance, StockVoucherType, StockLedgerEntry, SerialNo, serial_model, Stock,
  is_serialized, is_in_stock,
}
use engage_os.Inventory.Repository.{
  unit_by_serial, serial_by_no, acquire_for_dispatch, get_for_item_location, upsert_at,
  get_qty_after, add_entry, update_serial, put_unit,
}

-- A line of `receive_into_stock`.
pub record ReceiptLine : Type 0 where
  pub item_id : ℕ
  pub location_id : Option ℕ
  pub warehouse_id : Option ℕ
  pub qty : Qty
  pub purchase_cost : Money
  pub serial_nos : List ℕ

abbrev pub is_some : {A : Type 0} → Option A → Bool
is_some none = false
is_some (some a) = true

-- A stock ledger entry, with the quantity that `get_qty_after` makes of it.
unfoldable pub record_move :
    ℕ
    → ℕ
    → Option ℕ
    → Option ℕ
    → Option ℕ
    → StockVoucherType
    → ℕ
    → Qty
    → Money
    → Money
    → Action Stock ⊤
record_move posting_date item warehouse location unit voucher voucher_id change rate value s =
    add_entry
      (record {
        posting_date = posting_date;
        item_id = item;
        warehouse_id = warehouse;
        stock_unit_id = unit;
        voucher_type = voucher;
        voucher_id = voucher_id;
        qty_change = change;
        valuation_rate = rate;
        stock_value_change = value;
        qty_after = get_qty_after item location s.ledger +ℤ change;
        is_cancelled = false;
      })
      s

-- The unit and its entry in the serial registry.
unfoldable pub create_unit : ℕ → ReceiptLine → ℕ → Action Stock ℕ
create_unit grn_id line sno s =
    let unit : StockUnit = record {
      id = s.next_id;
      item_id = line.item_id;
      serial_no = sno;
      status = StockUnitStatus.in_stock;
      location_id = line.location_id;
      purchase_cost = line.purchase_cost;
      grn_id = some grn_id;
      sales_dispatch_id = none;
    } in
    let entry : SerialNo = record {
      id = s.next_id + 1;
      serial_no = sno;
      item_id = line.item_id;
      status = StockUnitStatus.in_stock;
      warehouse_id = line.warehouse_id;
      purchase_rate = line.purchase_cost;
    } in
    (
      ok s.next_id,
      record s {
        units = s.units ++ unit ∷ [];
        serials = s.serials ++ entry ∷ [];
        next_id = s.next_id + 2;
      },
    )

-- One serial number of a line of a serialized item. The registry's column is unique too: a number
-- that it has already is refused by the database.
unfoldable pub receive_serial : ℕ → ℕ → ReceiptLine → ℕ → Action Stock ⊤
receive_serial grn_id posting_date line sno = do
  existing ← gets (λ (s : Stock). unit_by_serial sno s.units)
  raise_if (is_some existing) conflict
  registered ← gets (λ (s : Stock). serial_by_no sno s.serials)
  raise_if (is_some registered) integrity_error
  unit_id ← create_unit grn_id line sno
  record_move posting_date line.item_id line.warehouse_id line.location_id (some unit_id)
      StockVoucherType.grn grn_id one_piece line.purchase_cost line.purchase_cost
  upsert_at line.item_id line.location_id one_piece (some line.purchase_cost)

unfoldable pub receive_serials : ℕ → ℕ → ReceiptLine → List ℕ → Action Stock ⊤
receive_serials grn_id posting_date line [] = pure tt
receive_serials grn_id posting_date line (sno ∷ snos) =
    receive_serial grn_id posting_date line sno >> receive_serials grn_id posting_date line snos

-- A line of a bulk item.
unfoldable pub receive_bulk : ℕ → ℕ → ReceiptLine → Action Stock ⊤
receive_bulk grn_id posting_date line = do
  record_move posting_date line.item_id line.warehouse_id line.location_id none StockVoucherType.grn
      grn_id line.qty line.purchase_cost (money 100 (line.qty *ℤ line.purchase_cost))
  upsert_at line.item_id line.location_id line.qty (some line.purchase_cost)

unfoldable pub receive_as : ItemNature → ℕ → ℕ → ReceiptLine → Action Stock ⊤
receive_as ItemNature.serialized grn_id posting_date line =
    receive_serials grn_id posting_date line line.serial_nos
receive_as ItemNature.bulk grn_id posting_date line = receive_bulk grn_id posting_date line

unfoldable pub receive_line : ℕ → ℕ → ReceiptLine → Action Stock ⊤
receive_line grn_id posting_date line = do
  found ← gets (λ (s : Stock). get line.item_id s.items)
  item ← or_raise found not_found
  receive_as item.nature grn_id posting_date line

-- `receive_into_stock`, but for the summary of the created units that it returns.
unfoldable pub receive_into_stock : ℕ → List ReceiptLine → ℕ → Action Stock ⊤
receive_into_stock grn_id [] posting_date = pure tt
receive_into_stock grn_id (line ∷ lines) posting_date =
    receive_line grn_id posting_date line >> receive_into_stock grn_id lines posting_date

abbrev pub sell : ℕ → StockUnit → StockUnit
sell dispatch_id u = record u {
  status = StockUnitStatus.sold;
  sales_dispatch_id = some dispatch_id;
}

-- The writes of `dispatch_units` for one unit; the result is its cost.
unfoldable pub sell_unit : ℕ → ℕ → StockUnit → Action Stock Money
sell_unit dispatch_id posting_date u = do
  raise_if (not (is_in_stock u.status)) conflict
  put_unit u.id (sell dispatch_id)
  entry ← gets (λ (s : Stock). serial_by_no u.serial_no s.serials)
  update_serial entry StockUnitStatus.sold
  record_move posting_date u.item_id none u.location_id (some u.id) StockVoucherType.dispatched
      dispatch_id minus_one_piece u.purchase_cost (pos 0 -ℤ u.purchase_cost)
  upsert_at u.item_id u.location_id minus_one_piece none
  pure u.purchase_cost

unfoldable pub dispatch_one : ℕ → ℕ → ℕ → Action Stock Money
dispatch_one dispatch_id posting_date i = do
  found ← gets (λ (s : Stock). get i s.units)
  u ← or_raise found not_found
  sell_unit dispatch_id posting_date u

unfoldable pub dispatch_each : ℕ → ℕ → List ℕ → Money → Action Stock Money
dispatch_each dispatch_id posting_date [] total_cogs = pure total_cogs
dispatch_each dispatch_id posting_date (i ∷ ids) total_cogs =
    dispatch_one dispatch_id posting_date i >>= λ cost.
    dispatch_each dispatch_id posting_date ids (total_cogs +ℤ cost)

abbrev pub ids_of : List StockUnit → List ℕ
ids_of = map (λ u. u.id)

unfoldable pub dispatch_units : List ℕ → ℕ → ℕ → Action Stock Money
dispatch_units stock_unit_ids dispatch_id posting_date = do
  units ← gets (λ (s : Stock). acquire_for_dispatch stock_unit_ids s.units)
  raise_if (not (length units == length stock_unit_ids)) not_found
  dispatch_each dispatch_id posting_date (ids_of units) money_zero

pub record StockTransferRequest : Type 0 where
  pub stock_unit_ids : List ℕ
  pub to_location_id : ℕ
  pub posting_date : ℕ
  pub transfer_id : ℕ

abbrev pub move_unit : ℕ → StockUnit → StockUnit
move_unit to_location u = record u {
  location_id = some to_location;
  status = StockUnitStatus.in_transit;
}

-- One unit of `transfer_units`; its entry has a quantity of zero after it.
unfoldable pub transfer_unit : StockTransferRequest → StockUnit → Action Stock ⊤
transfer_unit r u = do
  raise_if (not (is_in_stock u.status)) conflict
  add_entry (record {
    posting_date = r.posting_date;
    item_id = u.item_id;
    warehouse_id = none;
    stock_unit_id = some u.id;
    voucher_type = StockVoucherType.transfer;
    voucher_id = r.transfer_id;
    qty_change = pos 0;
    valuation_rate = u.purchase_cost;
    stock_value_change = pos 0;
    qty_after = pos 0;
    is_cancelled = false;
  })
  upsert_at u.item_id u.location_id minus_one_piece none
  put_unit u.id (move_unit r.to_location_id)

unfoldable pub transfer_one : StockTransferRequest → ℕ → Action Stock ⊤
transfer_one r i = do
  found ← gets (λ (s : Stock). get i s.units)
  u ← or_raise found not_found
  transfer_unit r u

unfoldable pub transfer_each : StockTransferRequest → List ℕ → Action Stock ⊤
transfer_each r [] = pure tt
transfer_each r (i ∷ ids) = transfer_one r i >> transfer_each r ids

unfoldable pub transfer_units : StockTransferRequest → Action Stock ⊤
transfer_units r = do
  units ← gets (λ (s : Stock). acquire_for_dispatch r.stock_unit_ids s.units)
  raise_if (not (length units == length r.stock_unit_ids)) not_found
  transfer_each r (ids_of units)

pub record StockAdjustmentRequest : Type 0 where
  pub item_id : ℕ
  pub location_id : ℕ
  pub qty_adjustment : Qty
  pub posting_date : ℕ
  pub adjustment_id : ℕ

abbrev pub current_qty : Option StockBalance → Qty
current_qty none = pos 0
current_qty (some b) = b.qty

abbrev pub current_cost : Item → Option StockBalance → Money
current_cost item none = item.default_purchase_price
current_cost item (some b) = b.avg_cost

-- `adjust_stock` up to its event; the result is the amount, without its sign.
unfoldable pub adjust_item : StockAdjustmentRequest → Item → Action Stock Money
adjust_item r item = do
  raise_if (is_serialized item.nature) conflict
  balance ← gets (λ (s : Stock). get_for_item_location r.item_id r.location_id s.balances)
  raise_if (ltb_ℤ (current_qty balance +ℤ r.qty_adjustment) (pos 0)) conflict
  add_entry (record {
    posting_date = r.posting_date;
    item_id = r.item_id;
    warehouse_id = none;
    stock_unit_id = none;
    voucher_type = StockVoucherType.adjustment;
    voucher_id = r.adjustment_id;
    qty_change = r.qty_adjustment;
    valuation_rate = current_cost item balance;
    stock_value_change = money 100 (r.qty_adjustment *ℤ current_cost item balance);
    qty_after = current_qty balance +ℤ r.qty_adjustment;
    is_cancelled = false;
  })
  upsert_at r.item_id (some r.location_id) r.qty_adjustment (some (current_cost item balance))
  pure (money 100 (pos (magnitude r.qty_adjustment) *ℤ current_cost item balance))

unfoldable pub adjust_quantity : StockAdjustmentRequest → Action Stock Money
adjust_quantity r = do
  found ← gets (λ (s : Stock). get r.item_id s.items)
  item ← or_raise found not_found
  adjust_item r item

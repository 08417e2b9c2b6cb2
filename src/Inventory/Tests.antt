-- ===== src/Inventory/Tests.antt =====
-- Small runs of the stock service.
use engage_os.Base.{◌≡◌, refl, some, List, [], ◌∷◌, map}
use engage_os.Base.Int.{pos, ◌+ℤ◌}
use engage_os.Core.Exceptions.{conflict}
use engage_os.Core.Action.{err}
use engage_os.Inventory.Models.{Item, ItemNature, Stock}
use engage_os.Inventory.Repository.{
  unit_by_serial, serial_by_no, get_qty_after, latest_entry, acquire_for_dispatch,
}
use engage_os.Inventory.Stock.{
  ReceiptLine, receive_into_stock, receive_line, receive_as, receive_serials, receive_serial,
  create_unit, record_move, dispatch_units, dispatch_each, dispatch_one, sell_unit,
  StockTransferRequest, StockAdjustmentRequest,
}
use engage_os.Inventory.Stock.Levels.{qty_at, count_at}
use engage_os.Inventory.Stock.Stocked.{IsStocked}
use engage_os.Inventory.Stock.Kept.{
  StockCall, receive, dispatch, transfer, adjust, call, after_calls, after_calls-IsStocked,
}

abbrev phone : Item
phone = record { id = 1; nature = ItemNature.serialized; default_purchase_price = pos 500 }

abbrev cable : Item
cable = record { id = 2; nature = ItemNature.bulk; default_purchase_price = pos 30 }

abbrev empty_shop : Stock
empty_shop = record {
  items = phone ∷ cable ∷ [];
  units = [];
  balances = [];
  ledger = [];
  serials = [];
  next_id = 10;
}

abbrev phones : ReceiptLine
phones = record {
  item_id = 1;
  location_id = some 7;
  warehouse_id = some 3;
  qty = pos 200;
  purchase_cost = pos 700;
  serial_nos = 91 ∷ 92 ∷ [];
}

abbrev move_second : StockTransferRequest
move_second = record {
  stock_unit_ids = 12 ∷ [];
  to_location_id = 8;
  posting_date = 5;
  transfer_id = 60;
}

abbrev found_cables : StockAdjustmentRequest
found_cables = record {
  item_id = 2;
  location_id = 7;
  qty_adjustment = pos 300;
  posting_date = 6;
  adjustment_id = 61;
}

abbrev week : List StockCall
week =
    receive 50 (phones ∷ []) 4
    ∷ dispatch (10 ∷ []) 51 5
    ∷ transfer move_second
    ∷ adjust found_cables
    ∷ dispatch (10 ∷ []) 52 6
    ∷ []

received_count : count_at 1 7 (after_calls (receive 50 (phones ∷ []) 4 ∷ []) empty_shop).units ≡ 2
unfolding after_calls call receive_into_stock receive_line receive_as receive_serials receive_serial
    unit_by_serial serial_by_no create_unit record_move
received_count = refl

received_qty :
    qty_at 1 7 (after_calls (receive 50 (phones ∷ []) 4 ∷ []) empty_shop).balances ≡ pos 200
unfolding after_calls call receive_into_stock receive_line receive_as receive_serials receive_serial
    unit_by_serial serial_by_no create_unit record_move ◌+ℤ◌
received_qty = refl

-- The ledger entries of a receipt at a location do not add up: each shows one piece after it.
qty_after_at_location :
    map (λ e. e.qty_after) (after_calls (receive 50 (phones ∷ []) 4 ∷ []) empty_shop).ledger
    ≡ pos 100 ∷ pos 100 ∷ []
unfolding after_calls call receive_into_stock receive_line receive_as receive_serials receive_serial
    unit_by_serial serial_by_no create_unit record_move ◌+ℤ◌ get_qty_after latest_entry
qty_after_at_location = refl

-- Selling a unit twice is refused.
sold_twice :
    (dispatch_units
      (10 ∷ [])
      52
      6
      (after_calls (receive 50 (phones ∷ []) 4 ∷ dispatch (10 ∷ []) 51 5 ∷ []) empty_shop)).0
    ≡ err conflict
unfolding after_calls call receive_into_stock receive_line receive_as receive_serials receive_serial
    unit_by_serial serial_by_no create_unit record_move ◌+ℤ◌ dispatch_units dispatch_each
    dispatch_one sell_unit acquire_for_dispatch
sold_twice = refl

empty-IsStocked : IsStocked empty_shop
unfolding IsStocked
empty-IsStocked i l h = refl

after_calls-IsStocked_example : IsStocked (after_calls week empty_shop)
after_calls-IsStocked_example = after_calls-IsStocked week empty_shop empty-IsStocked

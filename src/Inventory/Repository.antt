-- ===== src/Inventory/Repository.antt =====
-- backend/app/modules/inventory/repository.py: the queries and writes that the stock service uses.
use engage_os.Base.{
  ℕ, Bool, true, false, not, ◌&&◌, Option, none, some, List, [], ◌∷◌, ◌++◌, ◌==◌, leb,
  if◌then◌else◌, where_rows,
}
use engage_os.Base.Int.{pos, ◌+ℤ◌}
use engage_os.Core.Action.{⊤, Action, modify}
use engage_os.Core.Money.{Money, money_zero}
use engage_os.Core.Table.{update}
use engage_os.Inventory.Models.{
  Qty, StockUnit, unit_model, StockUnitStatus, StockBalance, StockLedgerEntry, SerialNo,
  serial_model, Stock,
}

-- `get_by_serial` of the units and of the serial registry: the column is unique.
unfoldable pub unit_by_serial : ℕ → List StockUnit → Option StockUnit
unit_by_serial sno [] = none
unit_by_serial sno (u ∷ us) = if u.serial_no == sno then some u else unit_by_serial sno us

unfoldable pub serial_by_no : ℕ → List SerialNo → Option SerialNo
serial_by_no sno [] = none
serial_by_no sno (r ∷ rs) = if r.serial_no == sno then some r else serial_by_no sno rs

abbrev pub contains : ℕ → List ℕ → Bool
contains i [] = false
contains i (j ∷ js) = if j == i then true else contains i js

-- `acquire_for_dispatch`
unfoldable pub acquire_for_dispatch : List ℕ → List StockUnit → List StockUnit
acquire_for_dispatch ids units = where_rows (λ u. contains u.id ids) units

abbrev pub is_balance_of : ℕ → ℕ → StockBalance → Bool
is_balance_of item location b = (b.item_id == item) && (b.location_id == location)

-- `get_for_item_location`
abbrev pub get_for_item_location : ℕ → ℕ → List StockBalance → Option StockBalance
get_for_item_location item location [] = none
get_for_item_location item location (b ∷ bs) =
    if is_balance_of item location b then some b else get_for_item_location item location bs

abbrev pub or_cost : Option Money → Money → Money
or_cost none c = c
or_cost (some a) c = a

-- `upsert_balance`
abbrev pub upsert_balance : ℕ → ℕ → Qty → Option Money → List StockBalance → List StockBalance
upsert_balance item location qty_change avg_cost [] =
    record {
      item_id = item;
      location_id = location;
      qty = qty_change;
      avg_cost = or_cost avg_cost money_zero;
    }
    ∷ []
upsert_balance item location qty_change avg_cost (b ∷ bs) =
    if is_balance_of item location b
    then record b { qty = b.qty +ℤ qty_change; avg_cost = or_cost avg_cost b.avg_cost } ∷ bs
    else b ∷ upsert_balance item location qty_change avg_cost bs

-- `if location_id is not None: upsert_balance(...)`
abbrev pub balances_at : ℕ → Option ℕ → Qty → Option Money → List StockBalance → List StockBalance
balances_at item none qty_change avg_cost bs = bs
balances_at item (some l) qty_change avg_cost bs = upsert_balance item l qty_change avg_cost bs

abbrev pub upsert_at : ℕ → Option ℕ → Qty → Option Money → Action Stock ⊤
upsert_at item location qty_change avg_cost =
    modify (λ s. record s { balances = balances_at item location qty_change avg_cost s.balances })

-- The WHERE clause of `get_qty_after`: the location is compared with the column of the warehouse.
abbrev pub is_warehouse : Option ℕ → Option ℕ → Bool
is_warehouse none w = true
is_warehouse (some l) none = false
is_warehouse (some l) (some w) = w == l

abbrev pub is_entry_of : ℕ → Option ℕ → StockLedgerEntry → Bool
is_entry_of item location e =
    (e.item_id == item) && (not e.is_cancelled && is_warehouse location e.warehouse_id)

-- Of the rows with the latest date, the last one: the query fixes no order between them.
abbrev pub later_entry : StockLedgerEntry → Option StockLedgerEntry → Option StockLedgerEntry
later_entry e none = some e
later_entry e (some f) = if leb e.posting_date f.posting_date then some f else some e

unfoldable pub latest_entry : List StockLedgerEntry → Option StockLedgerEntry
latest_entry [] = none
latest_entry (e ∷ es) = later_entry e (latest_entry es)

abbrev pub qty_of : Option StockLedgerEntry → Qty
qty_of none = pos 0
qty_of (some e) = e.qty_after

-- `get_qty_after`
unfoldable pub get_qty_after : ℕ → Option ℕ → List StockLedgerEntry → Qty
get_qty_after item location es = qty_of (latest_entry (where_rows (is_entry_of item location) es))

abbrev pub add_entry : StockLedgerEntry → Action Stock ⊤
add_entry e = modify (λ s. record s { ledger = s.ledger ++ e ∷ [] })

abbrev pub set_serial_status : StockUnitStatus → SerialNo → SerialNo
set_serial_status st r = record r { status = st }

-- `if serial_entry is not None: update_status(...)`
abbrev pub serials_after : Option SerialNo → StockUnitStatus → List SerialNo → List SerialNo
serials_after none st rows = rows
serials_after (some r) st rows = update r.id (set_serial_status st) rows

abbrev pub update_serial : Option SerialNo → StockUnitStatus → Action Stock ⊤
update_serial entry st = modify (λ s. record s { serials = serials_after entry st s.serials })

abbrev pub put_unit : ℕ → (StockUnit → StockUnit) → Action Stock ⊤
put_unit i f = modify (λ s. record s { units = update i f s.units })

-- ===== src/Inventory/Models.antt =====
-- backend/app/modules/inventory/models.py and constants.py: the columns that the stock service reads
-- or writes. A quantity is an integer of hundredths, the unit of a NUMERIC(12,2) column. A serial
-- number is only compared, and stands as a number. A stock balance is found by its item and location,
-- which are unique together, and needs no id of its own; a ledger entry is never looked up by id.
use engage_os.Base.{ℕ, Bool, true, false, Option, List}
use engage_os.Base.Int.{ℤ, pos, negsuc}
use engage_os.Core.Money.{Money}
use engage_os.Core.Table.{Model}

pub data ItemNature : Type 0 where
  serialized bulk : ItemNature

pub data StockUnitStatus : Type 0 where
  on_order in_stock in_transit sold scrapped returned : StockUnitStatus

pub data StockVoucherType : Type 0 where
  grn dispatched transfer adjustment stock_count opening : StockVoucherType

abbrev pub Qty : Type 0
Qty = ℤ

-- Decimal("1") and Decimal("-1")
abbrev pub one_piece : Qty
one_piece = pos 100

abbrev pub minus_one_piece : Qty
minus_one_piece = negsuc 99

pub record Item : Type 0 where
  pub id : ℕ
  pub nature : ItemNature
  pub default_purchase_price : Money

pub record StockUnit : Type 0 where
  pub id : ℕ
  pub item_id : ℕ
  pub serial_no : ℕ
  pub status : StockUnitStatus
  pub location_id : Option ℕ
  pub purchase_cost : Money
  pub grn_id : Option ℕ
  pub sales_dispatch_id : Option ℕ

pub record StockBalance : Type 0 where
  pub item_id : ℕ
  pub location_id : ℕ
  pub qty : Qty
  pub avg_cost : Money

pub record StockLedgerEntry : Type 0 where
  pub posting_date : ℕ
  pub item_id : ℕ
  pub warehouse_id : Option ℕ
  pub stock_unit_id : Option ℕ
  pub voucher_type : StockVoucherType
  pub voucher_id : ℕ
  pub qty_change : Qty
  pub valuation_rate : Money
  pub stock_value_change : Money
  pub qty_after : Qty
  pub is_cancelled : Bool

pub record SerialNo : Type 0 where
  pub id : ℕ
  pub serial_no : ℕ
  pub item_id : ℕ
  pub status : StockUnitStatus
  pub warehouse_id : Option ℕ
  pub purchase_rate : Money

pub record Stock : Type 0 where
  pub items : List Item
  pub units : List StockUnit
  pub balances : List StockBalance
  pub ledger : List StockLedgerEntry
  pub serials : List SerialNo
  pub next_id : ℕ

instance abbrev pub item_model : Model Item
item_model = record { pk = λ i. i.id }

instance abbrev pub unit_model : Model StockUnit
unit_model = record { pk = λ u. u.id }

instance abbrev pub serial_model : Model SerialNo
serial_model = record { pk = λ s. s.id }

abbrev pub is_serialized : ItemNature → Bool
is_serialized ItemNature.serialized = true
is_serialized ItemNature.bulk = false

abbrev pub is_in_stock : StockUnitStatus → Bool
is_in_stock StockUnitStatus.on_order = false
is_in_stock StockUnitStatus.in_stock = true
is_in_stock StockUnitStatus.in_transit = false
is_in_stock StockUnitStatus.sold = false
is_in_stock StockUnitStatus.scrapped = false
is_in_stock StockUnitStatus.returned = false

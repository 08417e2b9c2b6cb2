-- ===== src/Fulfilment/Tests.antt =====
-- A dispatch of one unit, and the theorems at it.
use Prim.Native.String.{String}
use engage_os.Base.{ℕ, ◌/◌, ◌≡◌, refl, true, false, length, none, some, [], ◌∷◌, map}
use engage_os.Base.Int.{pos, ◌+ℤ◌}
use engage_os.Core.Events.{emit_event_async}
use engage_os.Ledger.Bridge.{
  register_bridge_handlers, run_handler, dispatch, on_unit_dispatched, resolve_account_id,
}
use engage_os.Inventory.Models.{ItemNature, StockUnit, StockUnitStatus, Stock}
use engage_os.Ledger.Models.{AccountType, AccountNormalSide, Account, PeriodStatus, Ledger}
use engage_os.Ledger.Gates.{
  gates, check_period, check_accounts, check_account, check_amounts, check_amounts_line,
  check_balance,
}
use engage_os.Ledger.Posting.{post, bump, code_of, next_value}
use engage_os.Core.Money.{money, round_half_up, money_sum}
use engage_os.Fulfilment.{
  so_confirmed, so_dispatched, Dispatch, dp_draft, DispatchLine, Shop, confirm, confirm_found,
  confirm_lines, confirm_by, confirm_serialized, confirm_unit, finish_confirm, emit_dispatched,
  all_dispatched, dispatched_qty,
}
use engage_os.Fulfilment.Sold.{HasUnit, after_confirms, after_confirms-HasUnit}

abbrev unit : ℕ → StockUnitStatus → StockUnit
unit i st = record {
  id = i;
  item_id = 1;
  serial_no = i;
  status = st;
  location_id = some 7;
  purchase_cost = pos 7000;
  grn_id = none;
  sales_dispatch_id = none;
}

abbrev store : Stock
store = record {
  items = record { id = 1; nature = ItemNature.serialized; default_purchase_price = pos 7000 } ∷ [];
  units = unit 10 StockUnitStatus.in_stock ∷ unit 11 StockUnitStatus.sold ∷ [];
  balances = record { item_id = 1; location_id = 7; qty = pos 100; avg_cost = pos 7000 } ∷ [];
  ledger = [];
  serials = [];
  next_id = 20;
}

abbrev account : ℕ → String → Account
account id code = record {
  id = id;
  code = code;
  type = AccountType.asset;
  normal_side = AccountNormalSide.debit;
  parent_id = none;
  is_control = false;
  is_postable = true;
  is_active = true;
}

abbrev books : Ledger
books = record {
  accounts = account 1 "5100" ∷ account 2 "1200" ∷ [];
  periods =
      record {
        id = 7;
        fiscal_year = 0;
        month = 1;
        start_date = 1;
        end_date = 31;
        status = PeriodStatus.open_period;
      }
      ∷ [];
  entries = [];
  sequences = [];
  audit = [];
  next_id = 1;
}

abbrev parcel : Dispatch
parcel = record { id = 30; so_id = some 40; dispatch_date = 5; status = dp_draft }

abbrev parcel_line : DispatchLine
parcel_line = record {
  dispatch_id = 30;
  stock_unit_id = some 10;
  item_id = some 1;
  qty = pos 100;
  unit_cost = pos 0;
}

abbrev shop : Shop
shop = record {
  stock = store;
  warehouses = [];
  orders = record { id = 40; customer_id = 3; status = so_confirmed } ∷ [];
  order_lines =
      record { so_id = 40; item_id = some 1; qty = pos 100; line_total = pos 9000 }
      ∷ record { so_id = 40; item_id = some 1; qty = pos 100; line_total = pos 9000 }
      ∷ [];
  dispatches = parcel ∷ [];
  dispatch_lines = parcel_line ∷ [];
  ledger = books;
}

abbrev year : ℕ → ℕ
year d = d / 400

after_confirms-HasUnit_example :
    HasUnit 11
      (unit 11 StockUnitStatus.sold)
      (after_confirms year 6 ((30, 2) ∷ (30, 2) ∷ []) shop).stock
after_confirms-HasUnit_example =
    after_confirms-HasUnit year 6 ((30, 2) ∷ (30, 2) ∷ []) 11 (unit 11 StockUnitStatus.sold) shop
      refl refl

-- The balance of the location still shows the unit that has been sold from it.
balance_left : map (λ b. b.qty) (confirm year 6 30 2 shop).1.stock.balances ≡ pos 100 ∷ []
unfolding confirm confirm_found confirm_lines confirm_by confirm_serialized confirm_unit
    finish_confirm emit_dispatched emit_event_async register_bridge_handlers all_dispatched
    dispatched_qty ◌+ℤ◌
balance_left = refl

-- One piece of an item covers two order lines of one piece each.
order_covered : map (λ o. o.status) (confirm year 6 30 2 shop).1.orders ≡ so_dispatched ∷ []
unfolding confirm confirm_found confirm_lines confirm_by confirm_serialized confirm_unit
    finish_confirm emit_dispatched emit_event_async register_bridge_handlers all_dispatched
    dispatched_qty ◌+ℤ◌
order_covered = refl

-- The cost of the unit is posted.
cost_posted : length (confirm year 6 30 2 shop).1.ledger.entries ≡ 1
unfolding confirm confirm_found confirm_lines confirm_by confirm_serialized confirm_unit
    finish_confirm emit_dispatched emit_event_async register_bridge_handlers run_handler dispatch
    on_unit_dispatched resolve_account_id post gates check_period check_accounts check_account
    check_amounts check_amounts_line check_balance money_sum money round_half_up ◌+ℤ◌ bump code_of
    next_value all_dispatched dispatched_qty
cost_posted = refl

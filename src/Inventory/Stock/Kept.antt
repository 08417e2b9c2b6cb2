-- ===== src/Inventory/Stock/Kept.antt =====
-- The methods of `StockService` (service.py) on any stock whose balances show its units.
use engage_os.Base.{
  ℕ, ◌≡◌, refl, ap, ◌∙◌, false, some, List, [], ◌∷◌, inl, inr, Bool-cases, Option-cases,
}
use engage_os.Base.Int.{pos, ◌+ℤ◌, ltb_ℤ}
use engage_os.Core.Action.{⊤, Action, pure, ◌>>=◌}
use engage_os.Core.Keeps.{Keeps, keeps, bind-Keeps, then-Keeps, pure-Keeps}
use engage_os.Core.Money.{Money}
use engage_os.Core.Table.{get, get_pk}
use engage_os.Inventory.Models.{
  Item, item_model, ItemNature, StockUnit, unit_model, Stock, is_serialized, is_in_stock,
}
use engage_os.Inventory.Repository.{get_for_item_location}
use engage_os.Inventory.Stock.{
  ReceiptLine, record_move, receive_serials, receive_bulk, receive_as, receive_line,
  receive_into_stock, sell, sell_unit, dispatch_one, dispatch_each, dispatch_units,
  StockTransferRequest, move_unit, transfer_unit, transfer_one, transfer_each, transfer_units,
  StockAdjustmentRequest, adjust_item, adjust_quantity, current_qty, current_cost, receive_serial,
}
use engage_os.Inventory.Stock.Stocked.{
  IsStocked, left_stock, bulk_changed, receive_serial-IsStocked,
}

receive_serials-IsStocked :
    (grn_id date : ℕ) (line : ReceiptLine) (snos : List ℕ)
    → Keeps IsStocked (receive_serials grn_id date line snos)
unfolding receive_serials
receive_serials-IsStocked grn_id date line [] = pure-Keeps IsStocked tt
receive_serials-IsStocked grn_id date line (sno ∷ snos) =
    then-Keeps IsStocked (receive_serial grn_id date line sno)
      (receive_serials grn_id date line snos) (receive_serial-IsStocked grn_id date line sno)
      (receive_serials-IsStocked grn_id date line snos)

receive_bulk-IsStocked :
    (grn_id date : ℕ) (line : ReceiptLine) (s : Stock) (item : Item)
    → get line.item_id s.items ≡ some item
    → is_serialized item.nature ≡ false
    → IsStocked s
    → IsStocked (receive_bulk grn_id date line s).1
unfolding receive_bulk record_move
receive_bulk-IsStocked grn_id date line s item found bulk v =
    bulk_changed s _ line.item_id item line.location_id line.qty (some line.purchase_cost) found
      bulk refl refl refl v

receive_as-IsStocked :
    (nature : ItemNature) (grn_id date : ℕ) (line : ReceiptLine) (s : Stock) (item : Item)
    → get line.item_id s.items ≡ some item
    → item.nature ≡ nature
    → IsStocked s
    → IsStocked (receive_as nature grn_id date line s).1
unfolding receive_as
receive_as-IsStocked ItemNature.serialized grn_id date line s item found e v =
    unfold Keeps in receive_serials-IsStocked grn_id date line line.serial_nos s v
receive_as-IsStocked ItemNature.bulk grn_id date line s item found e v =
    receive_bulk-IsStocked grn_id date line s item found (ap is_serialized e) v

receive_line-IsStocked :
    (grn_id date : ℕ) (line : ReceiptLine) → Keeps IsStocked (receive_line grn_id date line)
unfolding Keeps receive_line
receive_line-IsStocked grn_id date line s v = elim (Option-cases (get line.item_id s.items)) [
  | inl e ↦ rw e v
  | inr (item, e) ↦ rw e (receive_as-IsStocked item.nature grn_id date line s item e refl v)
]

receive_into_stock-IsStocked :
    (grn_id : ℕ) (lines : List ReceiptLine) (date : ℕ)
    → Keeps IsStocked (receive_into_stock grn_id lines date)
unfolding receive_into_stock
receive_into_stock-IsStocked grn_id [] date = pure-Keeps IsStocked tt
receive_into_stock-IsStocked grn_id (line ∷ lines) date =
    then-Keeps IsStocked (receive_line grn_id date line) (receive_into_stock grn_id lines date)
      (receive_line-IsStocked grn_id date line) (receive_into_stock-IsStocked grn_id lines date)

sell_unit-IsStocked :
    (dispatch_id date : ℕ) (u : StockUnit) (s : Stock)
    → get u.id s.units ≡ some u
    → IsStocked s
    → IsStocked (sell_unit dispatch_id date u s).1
unfolding sell_unit record_move
sell_unit-IsStocked dispatch_id date u s found v = elim (Bool-cases (is_in_stock u.status)) [
  | inr e ↦ rw e v
  | inl e ↦ rw e (left_stock s _ u (sell dispatch_id) found e refl refl refl refl v)
]

found_at : (i : ℕ) (s : Stock) (u : StockUnit) → get i s.units ≡ some u → get u.id s.units ≡ some u
found_at i s u h = ap (λ k. get k s.units) (get_pk i s.units h) ∙ h

dispatch_one-IsStocked :
    (dispatch_id date i : ℕ) → Keeps IsStocked (dispatch_one dispatch_id date i)
unfolding Keeps dispatch_one
dispatch_one-IsStocked dispatch_id date i s v = elim (Option-cases (get i s.units)) [
  | inl e ↦ rw e v
  | inr (u, e) ↦ rw e (sell_unit-IsStocked dispatch_id date u s (found_at i s u e) v)
]

dispatch_each-IsStocked :
    (dispatch_id date : ℕ) (ids : List ℕ) (total : Money)
    → Keeps IsStocked (dispatch_each dispatch_id date ids total)
unfolding dispatch_each
dispatch_each-IsStocked dispatch_id date [] total = pure-Keeps IsStocked total
dispatch_each-IsStocked dispatch_id date (i ∷ ids) total =
    bind-Keeps IsStocked (dispatch_one dispatch_id date i)
      (λ cost. dispatch_each dispatch_id date ids (total +ℤ cost))
      (dispatch_one-IsStocked dispatch_id date i)
      (λ cost. dispatch_each-IsStocked dispatch_id date ids (total +ℤ cost))

pub dispatch_units-IsStocked :
    (ids : List ℕ) (dispatch_id date : ℕ) → Keeps IsStocked (dispatch_units ids dispatch_id date)
unfolding dispatch_units
dispatch_units-IsStocked ids dispatch_id date = search (keeps, dispatch_each-IsStocked)

transfer_unit-IsStocked :
    (r : StockTransferRequest) (u : StockUnit) (s : Stock)
    → get u.id s.units ≡ some u
    → IsStocked s
    → IsStocked (transfer_unit r u s).1
unfolding transfer_unit
transfer_unit-IsStocked r u s found v = elim (Bool-cases (is_in_stock u.status)) [
  | inr e ↦ rw e v
  | inl e ↦ rw e (left_stock s _ u (move_unit r.to_location_id) found e refl refl refl refl v)
]

transfer_one-IsStocked : (r : StockTransferRequest) (i : ℕ) → Keeps IsStocked (transfer_one r i)
unfolding Keeps transfer_one
transfer_one-IsStocked r i s v = elim (Option-cases (get i s.units)) [
  | inl e ↦ rw e v
  | inr (u, e) ↦ rw e (transfer_unit-IsStocked r u s (found_at i s u e) v)
]

transfer_each-IsStocked :
    (r : StockTransferRequest) (ids : List ℕ) → Keeps IsStocked (transfer_each r ids)
unfolding transfer_each
transfer_each-IsStocked r [] = pure-Keeps IsStocked tt
transfer_each-IsStocked r (i ∷ ids) =
    then-Keeps IsStocked (transfer_one r i) (transfer_each r ids) (transfer_one-IsStocked r i)
      (transfer_each-IsStocked r ids)

transfer_units-IsStocked : (r : StockTransferRequest) → Keeps IsStocked (transfer_units r)
unfolding transfer_units
transfer_units-IsStocked r = search (keeps, transfer_each-IsStocked)

adjust_item-IsStocked :
    (r : StockAdjustmentRequest) (item : Item) (s : Stock)
    → get r.item_id s.items ≡ some item
    → IsStocked s
    → IsStocked (adjust_item r item s).1
unfolding adjust_item
adjust_item-IsStocked r item s found v = elim (Bool-cases (is_serialized item.nature)) [
  | inl e ↦ rw e v
  | inr e ↦
      let balance = get_for_item_location r.item_id r.location_id s.balances in
      elim (Bool-cases (ltb_ℤ (current_qty balance +ℤ r.qty_adjustment) (pos 0))) [
        | inl low ↦ rw (e, low) v
        | inr fine ↦
            rw (e, fine)
              (bulk_changed s _ r.item_id item (some r.location_id) r.qty_adjustment
                (some (current_cost item balance)) found e refl refl refl v)
      ]
]

adjust_quantity-IsStocked : (r : StockAdjustmentRequest) → Keeps IsStocked (adjust_quantity r)
unfolding Keeps adjust_quantity
adjust_quantity-IsStocked r s v = elim (Option-cases (get r.item_id s.items)) [
  | inl e ↦ rw e v
  | inr (item, e) ↦ rw e (adjust_item-IsStocked r item s e v)
]

-- A call of the stock service.
pub data StockCall : Type 0 where
  receive : ℕ → List ReceiptLine → ℕ → StockCall
  dispatch : List ℕ → ℕ → ℕ → StockCall
  transfer : StockTransferRequest → StockCall
  adjust : StockAdjustmentRequest → StockCall

abbrev ignore : {A : Type 0} → Action Stock A → Action Stock ⊤
ignore m = m >>= λ _. pure tt

unfoldable pub call : StockCall → Action Stock ⊤
call (receive grn_id lines date) = receive_into_stock grn_id lines date
call (dispatch ids dispatch_id date) = ignore (dispatch_units ids dispatch_id date)
call (transfer r) = transfer_units r
call (adjust r) = ignore (adjust_quantity r)

-- The stock after some calls, each of which has returned or raised.
unfoldable pub after_calls : List StockCall → Stock → Stock
after_calls [] s = s
after_calls (c ∷ cs) s = after_calls cs (call c s).1

call-IsStocked : (c : StockCall) → Keeps IsStocked (call c)
unfolding call
call-IsStocked (receive grn_id lines date) = receive_into_stock-IsStocked grn_id lines date
call-IsStocked (dispatch ids dispatch_id date) = search (keeps, dispatch_units-IsStocked)
call-IsStocked (transfer r) = transfer_units-IsStocked r
call-IsStocked (adjust r) = search (keeps, adjust_quantity-IsStocked)

-- Whatever is received, dispatched, transferred and adjusted, and whatever of it raises half way: the
-- balance of a serialized item at a location always shows exactly the units of it that are in stock
-- there, a hundred hundredths for each.
pub after_calls-IsStocked :
    (cs : List StockCall) (s : Stock) → IsStocked s → IsStocked (after_calls cs s)
unfolding after_calls
after_calls-IsStocked [] s v = v
after_calls-IsStocked (c ∷ cs) s v =
    after_calls-IsStocked cs (call c s).1 (unfold Keeps in call-IsStocked c s v)

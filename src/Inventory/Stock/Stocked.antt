-- ===== src/Inventory/Stock/Stocked.antt =====
-- The balances of serialized items, and the units that are in stock (service.py).
use engage_os.Base.{
  ℕ, ◌+◌, ◌*◌, ◌≡◌, refl, sym, ap, ◌∙◌, Bool, true, false, ◌&&◌, Option, none, some, List, [], ◌∷◌,
  ◌++◌, ◌==◌, arith, inl, inr, Bool-cases, Option-cases, ==-eq_true,
}
use engage_os.Base.Int.{pos, ◌+ℤ◌, int_laws, +ℤ_zero}
use engage_os.Core.Keeps.{Keeps}
use engage_os.Core.Money.{Money}
use engage_os.Core.Table.Count.{bit, count-append, count-update}
use engage_os.Core.Table.{get, update}
use engage_os.Inventory.Models.{
  Qty, one_piece, minus_one_piece, Item, item_model, StockUnit, unit_model, StockUnitStatus,
  StockBalance, Stock, is_serialized, is_in_stock,
}
use engage_os.Inventory.Repository.{unit_by_serial, serial_by_no, balances_at}
use engage_os.Inventory.Stock.{ReceiptLine, record_move, create_unit, receive_serial}
use engage_os.Inventory.Stock.Levels.{qty_at, count_at, counts, part, is_at, qty_at-upsert_balance}

abbrev nature_serialized : Option Item → Bool
nature_serialized none = false
nature_serialized (some item) = is_serialized item.nature

-- For every serialized item and every location, the balance shows the units that are in stock there.
unfoldable pub IsStocked : Stock → Type 0
IsStocked s =
    (i l : ℕ)
    → nature_serialized (get i s.items) ≡ true
    → qty_at i l s.balances ≡ pos (100 * count_at i l s.units)

qty_at-balances_at :
    (i l j : ℕ) (place : Option ℕ) (d : Qty) (cost : Option Money) (bs : List StockBalance)
    → qty_at i l (balances_at j place d cost bs)
      ≡ qty_at i l bs +ℤ part ((j == i) && is_at place l) d
qty_at-balances_at i l j none d cost bs = grind (arith, +ℤ_zero)
qty_at-balances_at i l j (some m) d cost bs = qty_at-upsert_balance i l j m d cost bs

hundred_more : (b : Bool) (n : ℕ) → pos (100 * n) +ℤ part b one_piece ≡ pos (100 * (n + bit b))
hundred_more true n = omega int_laws
hundred_more false n = omega int_laws

hundred_less :
    (b : Bool) (n m : ℕ) → m + bit b ≡ n → pos (100 * n) +ℤ part b minus_one_piece ≡ pos (100 * m)
hundred_less true n m h = omega int_laws
hundred_less false n m h = omega int_laws

-- A unit more, with the balance of its place.
arrived :
    (s s' : Stock) (u : StockUnit) (cost : Option Money)
    → is_in_stock u.status ≡ true
    → s'.items ≡ s.items
    → s'.units ≡ s.units ++ u ∷ []
    → s'.balances ≡ balances_at u.item_id u.location_id one_piece cost s.balances
    → IsStocked s
    → IsStocked s'
unfolding IsStocked
arrived s s' u cost here items units balances v i l h =
    let place = (u.item_id == i) && is_at u.location_id l in
    rw
      (
        balances,
        units,
        qty_at-balances_at i l u.item_id u.location_id one_piece cost s.balances,
        v i l (rw items at h),
        count-append (counts i l) s.units u,
        here,
      )
      (hundred_more place (count_at i l s.units))

counts_not : (i l : ℕ) (u : StockUnit) → is_in_stock u.status ≡ false → counts i l u ≡ false
counts_not i l u h = rw h refl

counts_here :
    (i l : ℕ) (u : StockUnit)
    → is_in_stock u.status ≡ true
    → counts i l u ≡ ((u.item_id == i) && is_at u.location_id l)
counts_here i l u h = rw h refl

-- A unit that was in stock and is no longer, with the balance of the place where it was.
pub left_stock :
    (s s' : Stock) (u : StockUnit) (f : StockUnit → StockUnit)
    → get u.id s.units ≡ some u
    → is_in_stock u.status ≡ true
    → is_in_stock (f u).status ≡ false
    → s'.items ≡ s.items
    → s'.units ≡ update u.id f s.units
    → s'.balances ≡ balances_at u.item_id u.location_id minus_one_piece none s.balances
    → IsStocked s
    → IsStocked s'
unfolding IsStocked
left_stock s s' u f found here gone items units balances v i l h =
    let place = (u.item_id == i) && is_at u.location_id l in
    let step = count-update (counts i l) u.id f s.units u found in
    let fewer : count_at i l (update u.id f s.units) + bit place ≡ count_at i l s.units =
      (rw (counts_here i l u here, counts_not i l (f u) gone) at step) ∙ omega arith in
    rw
      (
        balances,
        units,
        qty_at-balances_at i l u.item_id u.location_id minus_one_piece none s.balances,
        v i l (rw items at h),
      )
      (hundred_less place (count_at i l s.units) (count_at i l (update u.id f s.units)) fewer)

false≢true : {A : Type 0} → false ≡ true → A
false≢true h = cc

other_item :
    (i j : ℕ) (items : List Item) (item : Item) (p : Bool)
    → get j items ≡ some item
    → is_serialized item.nature ≡ false
    → nature_serialized (get i items) ≡ true
    → ((j == i) && p) ≡ false
other_item i j items item p found bulk h = elim (Bool-cases (j == i)) [
  | inr e ↦ rw e refl
  | inl e ↦
      let same : j ≡ i = ==-eq_true j i e in
      let at_j : nature_serialized (get j items) ≡ true =
        ap (λ k. nature_serialized (get k items)) same ∙ h in
      false≢true (sym bulk ∙ (sym (ap nature_serialized found) ∙ at_j))
]

-- The balance of a bulk item changes, and no unit.
pub bulk_changed :
    (s s' : Stock) (j : ℕ) (item : Item) (place : Option ℕ) (d : Qty) (cost : Option Money)
    → get j s.items ≡ some item
    → is_serialized item.nature ≡ false
    → s'.items ≡ s.items
    → s'.units ≡ s.units
    → s'.balances ≡ balances_at j place d cost s.balances
    → IsStocked s
    → IsStocked s'
unfolding IsStocked
bulk_changed s s' j item place d cost found bulk items units balances v i l h =
    let h' = rw items at h in
    rw
      (
        balances,
        units,
        qty_at-balances_at i l j place d cost s.balances,
        v i l h',
        other_item i j s.items item (is_at place l) found bulk h',
      )
      (+ℤ_zero (pos (100 * count_at i l s.units)))

pub receive_serial-IsStocked :
    (grn_id date : ℕ) (line : ReceiptLine) (sno : ℕ)
    → Keeps IsStocked (receive_serial grn_id date line sno)
unfolding Keeps receive_serial create_unit record_move
receive_serial-IsStocked grn_id date line sno s v =
    elim (Option-cases (unit_by_serial sno s.units)) [
      | inr (u, e) ↦ rw e v
      | inl e ↦ elim (Option-cases (serial_by_no sno s.serials)) [
        | inr (r, e') ↦ rw (e, e') v
        | inl e' ↦
            rw (e, e')
              (arrived s _
                (record {
                  id = s.next_id;
                  item_id = line.item_id;
                  serial_no = sno;
                  status = StockUnitStatus.in_stock;
                  location_id = line.location_id;
                  purchase_cost = line.purchase_cost;
                  grn_id = some grn_id;
                  sales_dispatch_id = none;
                })
                (some line.purchase_cost) refl refl refl refl v)
      ]
    ]

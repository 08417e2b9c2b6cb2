-- ===== src/Inventory/Stock/Levels.antt =====
-- The balances and the units of the stock service (service.py): how both change with each write.
use engage_os.Base.{
  ℕ, ◌≡◌, refl, sym, ◌∙◌, Bool, true, false, ◌&&◌, Option, none, some, List, [], ◌∷◌, ◌==◌,
  if◌then◌else◌, arith, inl, inr, Bool-cases,
}
use engage_os.Base.Int.{pos, ◌+ℤ◌, int_laws, +ℤ_zero}
use engage_os.Core.Money.{Money}
use engage_os.Core.Table.Count.{count}
use engage_os.Inventory.Models.{Qty, item_model, StockUnit, unit_model, StockBalance, is_in_stock}
use engage_os.Inventory.Repository.{is_balance_of, upsert_balance}

-- The quantity that the balance of an item at a location shows.
abbrev pub qty_at : ℕ → ℕ → List StockBalance → Qty
qty_at i l [] = pos 0
qty_at i l (b ∷ bs) = if is_balance_of i l b then b.qty else qty_at i l bs

abbrev pub is_at : Option ℕ → ℕ → Bool
is_at none l = false
is_at (some m) l = m == l

abbrev pub counts : ℕ → ℕ → StockUnit → Bool
counts i l u = is_in_stock u.status && ((u.item_id == i) && is_at u.location_id l)

-- The units of an item that are in stock at a location.
abbrev pub count_at : ℕ → ℕ → List StockUnit → ℕ
count_at i l us = count (counts i l) us

abbrev pub same_place : ℕ → ℕ → ℕ → ℕ → Bool
same_place i l j m = (j == i) && (m == l)

-- An amount that is added, if it is for this place.
abbrev pub part : Bool → Qty → Qty
part b d = if b then d else pos 0

place_of :
    (i l j m : ℕ) (b : StockBalance)
    → is_balance_of j m b ≡ true
    → is_balance_of i l b ≡ same_place i l j m
place_of i l j m b h = ground arith

place_other :
    (i l j m : ℕ) (b : StockBalance)
    → is_balance_of j m b ≡ false
    → is_balance_of i l b ≡ true
    → same_place i l j m ≡ false
place_other i l j m b h h' = ground arith

part_zero : (b : Bool) (d : Qty) → part b d ≡ pos 0 +ℤ part b d
part_zero b d = omega int_laws

pub qty_at-upsert_balance :
    (i l j m : ℕ) (d : Qty) (cost : Option Money) (bs : List StockBalance)
    → qty_at i l (upsert_balance j m d cost bs) ≡ qty_at i l bs +ℤ part (same_place i l j m) d
qty_at-upsert_balance i l j m d cost [] = part_zero (same_place i l j m) d
qty_at-upsert_balance i l j m d cost (b ∷ bs) = elim (Bool-cases (is_balance_of j m b)) [
  | inl here ↦ elim (Bool-cases (is_balance_of i l b)) [
    | inl e ↦
        let same : same_place i l j m ≡ true = sym (place_of i l j m b here) ∙ e in
        rw (here, e, same) refl
    | inr e ↦
        let same : same_place i l j m ≡ false = sym (place_of i l j m b here) ∙ e in
        rw (here, e, same) (sym (+ℤ_zero (qty_at i l bs)))
  ]
  | inr other ↦ elim (Bool-cases (is_balance_of i l b)) [
    | inl e ↦ rw (other, e, place_other i l j m b other e) (sym (+ℤ_zero b.qty))
    | inr e ↦ rw (other, e) (qty_at-upsert_balance i l j m d cost bs)
  ]
]

-- ===== src/Fulfilment/Value.antt =====
-- The value of the units in stock, and what a dispatch (service.py) takes from it.
use engage_os.Base.{
  ℕ, ◌≡◌, refl, ap, ◌∙◌, inl, inr, true, Option, none, some, List, [], ◌∷◌, ◌==◌, if◌then◌else◌,
  Bool-cases, Option-cases, some-eq_some, All,
}
use engage_os.Base.Int.{ℤ, pos, ◌+ℤ◌, int_laws}
use engage_os.Core.Action.{Action, Result, ok, err, bind_to, bind_stop, ◌>>=◌}
use engage_os.Core.Money.{Money}
use engage_os.Core.Table.{get, get_pk, update}
use engage_os.Inventory.Models.{StockUnit, unit_model, Stock, is_in_stock}
use engage_os.Inventory.Stock.{sell, is_some}
use engage_os.Fulfilment.{
  Dispatch, DispatchLine, confirm_unit, confirm_serialized, confirm_by, confirm_lines,
}

-- The purchase costs of the units in stock, summed, as in `ValuationService.compute_stock_value`.
abbrev pub value_of : StockUnit → Money
value_of u = if is_in_stock u.status then u.purchase_cost else pos 0

abbrev pub stock_value : List StockUnit → Money
stock_value [] = pos 0
stock_value (u ∷ us) = value_of u +ℤ stock_value us

moved_out : (a b : ℤ) → a +ℤ b ≡ (pos 0 +ℤ b) +ℤ a
moved_out a b = omega int_laws

behind : (a b c d : ℤ) → b ≡ c +ℤ d → a +ℤ b ≡ (a +ℤ c) +ℤ d
behind a b c d h = ap (λ x. a +ℤ x) h ∙ assoc a c d
  where
    assoc : (a c d : ℤ) → a +ℤ (c +ℤ d) ≡ (a +ℤ c) +ℤ d
    assoc a c d = omega int_laws

stock_value-sell :
    (i d : ℕ) (us : List StockUnit) (u : StockUnit)
    → get i us ≡ some u
    → is_in_stock u.status ≡ true
    → stock_value us ≡ stock_value (update i (sell d) us) +ℤ u.purchase_cost
stock_value-sell i d [] u h e = cc
stock_value-sell i d (x ∷ us) u h e = elim (Bool-cases (x.id == i)) [
  | inl here ↦
      let same : x ≡ u = some-eq_some (rw here at h) in
      rw (here, same, e) (moved_out u.purchase_cost (stock_value us))
  | inr other ↦ rw other (
      behind (value_of x) (stock_value us) (stock_value (update i (sell d) us)) u.purchase_cost
        (stock_value-sell i d us u (rw other at h) e))
]

-- A call that returns a cost has taken it from the value; one that raises says nothing.
abbrev Takes : Stock → Result Money × Stock → Type 0
Takes s (ok cost, s') = stock_value s.units ≡ stock_value s'.units +ℤ cost
Takes s (err x, s') = Unit

confirm_unit-Takes :
    (d : Dispatch) (i : ℕ) (u : StockUnit) (s : Stock)
    → get i s.units ≡ some u
    → Takes s (confirm_unit d u s)
unfolding confirm_unit
confirm_unit-Takes d i u s found = elim (Bool-cases (is_in_stock u.status)) [
  | inr e ↦ rw e tt
  | inl e ↦
      let here : get u.id s.units ≡ some u =
        ap (λ k. get k s.units) (get_pk i s.units found) ∙ found in
      rw e (stock_value-sell u.id d.id s.units u here e)
]

confirm_serialized-Takes : (d : Dispatch) (i : ℕ) (s : Stock) → Takes s (confirm_serialized d i s)
unfolding confirm_serialized
confirm_serialized-Takes d i s = elim (Option-cases (get i s.units)) [
  | inl e ↦ rw e tt
  | inr (u, e) ↦ rw e (confirm_unit-Takes d i u s e)
]

confirm_by-Takes :
    (o item : Option ℕ) (d : Dispatch) (ws : List (ℕ × ℕ)) (line : DispatchLine) (s : Stock)
    → is_some o ≡ true
    → Takes s (confirm_by o item d ws line s)
unfolding confirm_by
confirm_by-Takes none item d ws line s h = cc
confirm_by-Takes (some i) item d ws line s h = confirm_serialized-Takes d i s

-- The same for a total that is being added up.
abbrev pub TakesFrom : Money → Stock → Result Money × Stock → Type 0
TakesFrom t s (ok total, s') = stock_value s.units +ℤ t ≡ stock_value s'.units +ℤ total
TakesFrom t s (err x, s') = Unit

add_up : (v w x c t total : ℤ) → v ≡ w +ℤ c → w +ℤ (t +ℤ c) ≡ x +ℤ total → v +ℤ t ≡ x +ℤ total
add_up v w x c t total h k = ap (λ a. a +ℤ t) h ∙ (shift w c t ∙ k)
  where
    shift : (w c t : ℤ) → (w +ℤ c) +ℤ t ≡ w +ℤ (t +ℤ c)
    shift w c t = omega int_laws

carry :
    (t cost : Money) (s s' : Stock) (o : Result Money × Stock)
    → stock_value s.units ≡ stock_value s'.units +ℤ cost
    → TakesFrom (t +ℤ cost) s' o
    → TakesFrom t s o
carry t cost s s' (ok total, s2) h k = add_up _ _ _ cost t total h k
carry t cost s s' (err x, s2) h k = tt

-- The unit of a line is named.
abbrev pub IsSerialized : DispatchLine → Type 0
IsSerialized line = is_some line.stock_unit_id ≡ true

pub confirm_lines-TakesFrom :
    (d : Dispatch) (ws : List (ℕ × ℕ)) (lines : List DispatchLine) (t : Money) (s : Stock)
    → All IsSerialized lines
    → TakesFrom t s (confirm_lines d ws lines t s)
unfolding confirm_lines
confirm_lines-TakesFrom d ws [] t s h = refl
confirm_lines-TakesFrom d ws (line ∷ lines) t s h =
    go (confirm_by line.stock_unit_id line.item_id d ws line s) refl
      (confirm_by-Takes line.stock_unit_id line.item_id d ws line s h.0)
      (λ cost s'. confirm_lines-TakesFrom d ws lines (t +ℤ cost) s' h.1)
  where
    rest : Money → Action Stock Money
    rest cost = confirm_lines d ws lines (t +ℤ cost)

    go :
        (o : Result Money × Stock)
        → confirm_by line.stock_unit_id line.item_id d ws line s ≡ o
        → Takes s o
        → ((cost : Money) (s' : Stock) → TakesFrom (t +ℤ cost) s' (rest cost s'))
        → TakesFrom t s ((confirm_by line.stock_unit_id line.item_id d ws line >>= rest) s)
    go (ok cost, s') e k more =
        rw (bind_to (confirm_by line.stock_unit_id line.item_id d ws line) rest s e)
          (carry t cost s s' (rest cost s') k (more cost s'))
    go (err x, s') e k more =
        rw (bind_stop (confirm_by line.stock_unit_id line.item_id d ws line) rest s e) tt

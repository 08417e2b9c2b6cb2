-- ===== src/Fulfilment/Sold.antt =====
-- Units that are not in stock, under `DispatchService.confirm` (service.py).
use engage_os.Base.{
  ℕ, ◌≡◌, refl, sym, ap, ◌∙◌, ◌≢◌, inl, inr, true, false, Option, none, some, List, [], ◌∷◌,
  Bool-cases, Option-cases, some-eq_some, ◌&&◌,
}
use engage_os.Core.Action.{Action, modify}
use engage_os.Core.Keeps.{Keeps, keeps, bind-Keeps}
use engage_os.Core.Money.{Money, money_zero}
use engage_os.Core.Table.{get, get_pk, get-update_ne}
use engage_os.Inventory.Models.{StockUnit, unit_model, StockBalance, Stock, is_in_stock}
use engage_os.Inventory.Stock.{sell}
use engage_os.Ledger.Bridge.{Payload}
use engage_os.Fulfilment.{
  Dispatch, dispatch_model, order_model, DispatchLine, Shop, confirm_unit, confirm_serialized,
  confirm_from, confirm_bulk, confirm_by, confirm_lines, in_stock_of, lines_of,
  maybe_mark_so_dispatched, set_confirmed, emit_dispatched, finish_confirm, confirm_found, confirm,
  is_so_confirmed, all_dispatched,
}

-- The unit is as it was.
abbrev pub HasUnit : ℕ → StockUnit → Stock → Type 0
HasUnit i u s = get i s.units ≡ some u

module _ (i : ℕ) (u : StockUnit) (away : is_in_stock u.status ≡ false) where
  other_than :
      (j : ℕ) (v : StockUnit) (s : Stock)
      → HasUnit i u s
      → HasUnit j v s
      → is_in_stock v.status ≡ true
      → j ≢ i
  other_than j v s here there e same =
      let one : v ≡ u = some-eq_some (sym there ∙ (ap (λ k. get k s.units) same ∙ here)) in
      absurd (differ (sym e ∙ (ap (λ w. is_in_stock w.status) one ∙ away)))
    where
      differ : true ≡ false → ⊥
      differ h = cc

  confirm_serialized-Keeps : (d : Dispatch) (j : ℕ) → Keeps (HasUnit i u) (confirm_serialized d j)
  unfolding Keeps confirm_serialized confirm_unit
  confirm_serialized-Keeps d j s here = elim (Option-cases (get j s.units)) [
    | inl e ↦ rw e here
    | inr (v, e) ↦ elim (Bool-cases (is_in_stock v.status)) [
      | inr gone ↦ rw (e, gone) here
      | inl there ↦
          let row : HasUnit v.id v s = ap (λ k. get k s.units) (get_pk j s.units e) ∙ e in
          rw (e, there)
            (get-update_ne v.id i (sell d.id) s.units (λ y. refl)
                (other_than v.id v s here row there)
              ∙ here)
    ]
  ]

  confirm_from-Keeps :
      (d : Dispatch) (ws : List (ℕ × ℕ)) (item : ℕ) (line : DispatchLine) (b : StockBalance)
      → Keeps (HasUnit i u) (confirm_from d ws item line b)
  unfolding Keeps confirm_from
  confirm_from-Keeps d ws item line b s here = here

  confirm_bulk-Keeps :
      (d : Dispatch) (ws : List (ℕ × ℕ)) (item : ℕ) (line : DispatchLine)
      → Keeps (HasUnit i u) (confirm_bulk d ws item line)
  unfolding confirm_bulk
  confirm_bulk-Keeps d ws item line = search (keeps, confirm_from-Keeps)

  confirm_by-Keeps :
      (o item : Option ℕ) (d : Dispatch) (ws : List (ℕ × ℕ)) (line : DispatchLine)
      → Keeps (HasUnit i u) (confirm_by o item d ws line)
  unfolding confirm_by
  confirm_by-Keeps (some j) item d ws line = confirm_serialized-Keeps d j
  confirm_by-Keeps none (some item) d ws line = search (keeps, confirm_bulk-Keeps)
  confirm_by-Keeps none none d ws line = search keeps

  confirm_lines-Keeps :
      (d : Dispatch) (ws : List (ℕ × ℕ)) (lines : List DispatchLine) (t : Money)
      → Keeps (HasUnit i u) (confirm_lines d ws lines t)
  unfolding confirm_lines
  confirm_lines-Keeps d ws [] t = search keeps
  confirm_lines-Keeps d ws (line ∷ lines) t =
      search (keeps, confirm_by-Keeps, confirm_lines-Keeps d ws lines)

  abbrev ShopHasUnit : Shop → Type 0
  ShopHasUnit s = HasUnit i u s.stock

  module _ (year : ℕ → ℕ) (today : ℕ) where
    emit_dispatched-Keeps : (p : Payload) → Keeps ShopHasUnit (emit_dispatched year today p)
    unfolding Keeps emit_dispatched
    emit_dispatched-Keeps p s here = here

    set_confirmed-Keeps : (j : ℕ) → Keeps ShopHasUnit (modify (set_confirmed j))
    unfolding Keeps
    set_confirmed-Keeps j s here = here

    marked :
        (so_id : Option ℕ) (s : Shop)
        → ShopHasUnit s
        → ShopHasUnit (maybe_mark_so_dispatched so_id s)
    marked none s here = here
    marked (some so_id) s here = elim (Option-cases (get so_id s.orders)) [
      | inl e ↦ rw e here
      | inr (o, e) ↦
          elim (Bool-cases (
            is_so_confirmed o.status
            && all_dispatched so_id s.dispatches s.dispatch_lines s.order_lines)) [
              | inl c ↦ rw (e, c) here
              | inr c ↦ rw (e, c) here
            ]
    ]

    mark-Keeps : (so_id : Option ℕ) → Keeps ShopHasUnit (modify (maybe_mark_so_dispatched so_id))
    unfolding Keeps
    mark-Keeps so_id s here = marked so_id s here

    finish_confirm-Keeps :
        (d : Dispatch) (actor_id : ℕ) (t : Money)
        → Keeps ShopHasUnit (finish_confirm year today d actor_id t)
    unfolding finish_confirm
    finish_confirm-Keeps d actor_id t =
        search (keeps, emit_dispatched-Keeps, set_confirmed-Keeps, mark-Keeps)

    in_stock_of-Keeps :
        {A : Type 0} (m : Action Stock A)
        → Keeps (HasUnit i u) m
        → Keeps ShopHasUnit (in_stock_of m)
    unfolding Keeps
    in_stock_of-Keeps m h s here = h s.stock here

    confirm_found-Keeps :
        (d : Dispatch) (actor_id : ℕ) → Keeps ShopHasUnit (confirm_found year today d actor_id)
    unfolding Keeps confirm_found
    confirm_found-Keeps d actor_id s here =
        bind-Keeps ShopHasUnit
          (in_stock_of (confirm_lines d s.warehouses (lines_of d.id s.dispatch_lines) money_zero))
          (finish_confirm year today d actor_id)
          (in_stock_of-Keeps
            (confirm_lines d s.warehouses (lines_of d.id s.dispatch_lines) money_zero)
            (confirm_lines-Keeps d s.warehouses (lines_of d.id s.dispatch_lines) money_zero))
          (finish_confirm-Keeps d actor_id) s here

    confirm-Keeps : (j actor_id : ℕ) → Keeps ShopHasUnit (confirm year today j actor_id)
    unfolding confirm
    confirm-Keeps j actor_id = search (keeps, confirm_found-Keeps)

-- Confirming some dispatches, each of which has returned or raised.
unfoldable pub after_confirms : (ℕ → ℕ) → ℕ → List (ℕ × ℕ) → Shop → Shop
after_confirms year today [] s = s
after_confirms year today ((i, actor_id) ∷ rest) s =
    after_confirms year today rest (confirm year today i actor_id s).1

-- A unit that is not in stock, because it has been sold or is on its way, is never dispatched again:
-- it is as it was after any confirmations, also those that raise half way.
pub after_confirms-HasUnit :
    (year : ℕ → ℕ) (today : ℕ) (confirms : List (ℕ × ℕ)) (i : ℕ) (u : StockUnit) (s : Shop)
    → is_in_stock u.status ≡ false
    → HasUnit i u s.stock
    → HasUnit i u (after_confirms year today confirms s).stock
unfolding after_confirms
after_confirms-HasUnit year today [] i u s away here = here
after_confirms-HasUnit year today ((j, actor_id) ∷ rest) i u s away here =
    after_confirms-HasUnit year today rest i u (confirm year today j actor_id s).1 away
      (unfold Keeps in confirm-Keeps i u away year today j actor_id s here)

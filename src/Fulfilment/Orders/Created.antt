-- ===== src/Fulfilment/Orders/Created.antt =====
-- `SOService.create`, and `SOService.confirm` of the order it created.
use mathlib.Core.List.{append_assoc, append-nil}
use engage_os.Base.{
  ℕ, ◌≡◌, refl, sym, ◌∙◌, ap, ◌⊎◌, false, Option, some, List, [], ◌∷◌, ◌++◌, map, arith, ◌==◌, All,
}
use engage_os.Base.Int.{◌*ℤ◌, sum}
use engage_os.Core.Exceptions.{conflict}
use engage_os.Core.Action.{Result, ok, err, gets, bind_to}
use engage_os.Core.Money.{Money, money}
use engage_os.Core.Table.{get, IsBelow, get_fresh, get-append_new}
use engage_os.Fulfilment.{SalesOrder, order_model, SalesOrderLine, SoStatus, so_draft, so_confirmed}
use engage_os.Fulfilment.Orders.Credit.{Affords, Exceeds, out_of, notes_of, confirm_order-draft}
use engage_os.Fulfilment.Orders.{
  Contact, contact_model, Desk, SoLineRequest, SoCreateRequest, so_total, set_so_confirmed,
  confirm_order, new_order_line, create_order_lines, add_order, create_order,
}

create_order_lines_lem :
    (i : ℕ) (rs : List SoLineRequest) (s : Desk)
    → create_order_lines i rs s
      ≡ (ok tt, record s { order_lines = s.order_lines ++ map (new_order_line i) rs })
unfolding create_order_lines
create_order_lines_lem i [] s =
    ap (λ ls. (ok tt, record s { order_lines = ls })) (sym (append-nil s.order_lines))
create_order_lines_lem i (r ∷ rs) s =
    create_order_lines_lem i rs _
    ∙ ap (λ ls. (ok tt, record s { order_lines = ls }))
        (append_assoc s.order_lines (new_order_line i r ∷ []) (map (new_order_line i) rs))

-- What the lines of a request come to.
abbrev pub requested : List SoLineRequest → Money
requested rs = sum (map (λ (r : SoLineRequest). money 100 (r.qty *ℤ r.unit_price)) rs)

so_total-requested :
    (i : ℕ) (rs : List SoLineRequest) → so_total i (map (new_order_line i) rs) ≡ requested rs
unfolding so_total
so_total-requested i [] = refl
so_total-requested i (r ∷ rs) = ground (arith, so_total-requested i rs)

so_total-new :
    (i : ℕ) (rs : List SoLineRequest) (ls : List SalesOrderLine)
    → All (λ l. (l.so_id == i) ≡ false) ls
    → so_total i (ls ++ map (new_order_line i) rs) ≡ requested rs
unfolding so_total
so_total-new i rs [] h = so_total-requested i rs
so_total-new i rs (l ∷ ls) h = rw h.0 (so_total-new i rs ls h.1)

-- The session after `create`.
abbrev pub created : SoCreateRequest → Desk → Desk
created r s = record (add_order s.next_id r.customer_id s) {
  order_lines = s.order_lines ++ map (new_order_line s.next_id) r.lines;
}

abbrev pub with_status : SoStatus → SoCreateRequest → Desk → SalesOrder
with_status st r s = record { id = s.next_id; customer_id = r.customer_id; status = st }

-- What the confirmation of the order does in the session that the creation has left.
pub ConfirmsCreated : SoCreateRequest → Contact → Desk → Result (Option SalesOrder) × Desk → Type 0
ConfirmsCreated r c s result =
    ((result ≡ (ok (some (with_status so_confirmed r s)), set_so_confirmed s.next_id (created r s)))
      × Affords c.credit_limit (out_of r.customer_id s) (notes_of r.customer_id s)
          (requested r.lines))
    ⊎ ((result ≡ (err conflict, created r s))
        × Exceeds c.credit_limit (out_of r.customer_id s) (notes_of r.customer_id s)
            (requested r.lines))

module _ (r : SoCreateRequest) (c : Contact) (s : Desk) where
  module _ (contact : get r.customer_id s.contacts ≡ some c)
      (fresh : IsBelow s.next_id s.orders) where
    found_order : get s.next_id (created r s).orders ≡ some (with_status so_draft r s)
    found_order =
        get-append_new (with_status so_draft r s) s.orders (get_fresh s.next_id s.orders fresh)

    create_order_lem : create_order r s ≡ (ok (some (with_status so_draft r s)), created r s)
    unfolding create_order
    create_order_lem = rw contact (
        bind_to (create_order_lines s.next_id r.lines)
          (λ _. gets (λ (t : Desk). get s.next_id t.orders)) (add_order s.next_id r.customer_id s)
          (create_order_lines_lem s.next_id r.lines (add_order s.next_id r.customer_id s))
        ∙ rw found_order refl)

    module _
        (unused : All (λ (l : SalesOrderLine). (l.so_id == s.next_id) ≡ false) s.order_lines) where
      confirms : ConfirmsCreated r c s (confirm_order s.next_id (created r s))
      unfolding ConfirmsCreated
      confirms =
          rw (sym (so_total-new s.next_id r.lines s.order_lines unused)) (
            confirm_order-draft (with_status so_draft r s) (created r s) found_order refl c contact)

      -- An order for a known customer, whose id is new to orders and lines, is created as a draft.
      -- Confirming it then sees the total of the requested lines, each rounded by itself: it returns
      -- the order as confirmed and changes nothing else, where the customer has no positive limit or
      -- the outstanding invoices and this total are within the limit and the issued credit notes; it
      -- raises a conflict and changes nothing where they exceed a positive limit.
      pub confirm_order-create_order :
          (create_order r s ≡ (ok (some (with_status so_draft r s)), created r s))
          × ConfirmsCreated r c s (confirm_order s.next_id (create_order r s).1)
      confirm_order-create_order = (create_order_lem, rw create_order_lem confirms)

-- ===== src/Fulfilment/Orders/Tests.antt =====
-- Orders of a customer with a limit of 100, who owes 60.
use engage_os.Base.{◌≡◌, refl, none, some, [], ◌∷◌, map, arith}
use engage_os.Base.Int.{pos, ◌+ℤ◌, ◌-ℤ◌}
use engage_os.Core.Action.{ok, err}
use engage_os.Core.Exceptions.{conflict}
use engage_os.Receivables.Models.{InvoiceStatus, SalesInvoice}
use engage_os.Receivables.Outstanding.{sum_outstanding}
use engage_os.Fulfilment.{so_draft, so_confirmed, SalesOrder}
use engage_os.Fulfilment.Orders.{
  Contact, Desk, SoCreateRequest, check_credit_limit, credit_notes_total, so_total, confirm_checked,
  confirm_draft, confirm_order, create_order,
}
use engage_os.Fulfilment.Orders.Created.{
  with_status, created, ConfirmsCreated, confirm_order-create_order,
}
use engage_os.Fulfilment.Orders.Credit.{OrderOutcome, confirm_order-OrderOutcome}

abbrev customer : Contact
customer = record { id = 3; credit_limit = some (pos 1000000) }

abbrev owed : SalesInvoice
owed = record {
  id = 5;
  customer_id = 3;
  posting_date = 1;
  due_date = 31;
  subtotal = pos 600000;
  tax_total = pos 0;
  total = pos 600000;
  status = InvoiceStatus.issued;
  je_id = none;
}

abbrev desk : Desk
desk = record {
  contacts = customer ∷ [];
  invoices = owed ∷ [];
  credit_notes = [];
  orders =
      record { id = 40; customer_id = 3; status = so_draft }
      ∷ record { id = 41; customer_id = 3; status = so_draft }
      ∷ record { id = 42; customer_id = 3; status = so_draft }
      ∷ [];
  order_lines =
      record { so_id = 40; item_id = some 1; qty = pos 100; line_total = pos 400000 }
      ∷ record { so_id = 41; item_id = some 1; qty = pos 100; line_total = pos 400000 }
      ∷ record { so_id = 42; item_id = some 1; qty = pos 100; line_total = pos 400001 }
      ∷ [];
  next_id = 50;
}

abbrev request : SoCreateRequest
request = record {
  customer_id = 3;
  lines =
      record { item_id = some 1; qty = pos 150; unit_price = pos 33333 }
      ∷ record { item_id = none; qty = pos 200; unit_price = pos 50000 }
      ∷ [];
}

confirm_order-OrderOutcome_example : OrderOutcome 42 desk (confirm_order 42 desk)
confirm_order-OrderOutcome_example = confirm_order-OrderOutcome 42 desk

confirm_order-create_order_example :
    (create_order request desk
      ≡ (ok (some (with_status so_draft request desk)), created request desk))
    × ConfirmsCreated request customer desk (confirm_order 50 (create_order request desk).1)
confirm_order-create_order_example =
    confirm_order-create_order request customer desk refl
      (omega arith, (omega arith, (omega arith, tt))) (refl, (refl, (refl, tt)))

too_much : (confirm_order 42 desk).0 ≡ err conflict
unfolding confirm_order confirm_draft confirm_checked check_credit_limit credit_notes_total so_total
    sum_outstanding ◌+ℤ◌ ◌-ℤ◌
too_much = refl

-- Two orders that each use up what is left are both confirmed.
both_confirmed :
    map (λ (o : SalesOrder). o.status) (confirm_order 41 (confirm_order 40 desk).1).1.orders
    ≡ so_confirmed ∷ so_confirmed ∷ so_draft ∷ []
unfolding confirm_order confirm_draft confirm_checked check_credit_limit credit_notes_total so_total
    sum_outstanding ◌+ℤ◌ ◌-ℤ◌
both_confirmed = refl

-- ===== src/Fulfilment/Orders/Credit.antt =====
-- `SOService.confirm` and its credit check, over any contacts, invoices and credit notes.
use mathlib.Core.Path.{subst}
use engage_os.Base.{
  ℕ, ◌≡◌, refl, ◌∙◌, ◌⊎◌, inl, inr, Bool, true, false, Option, none, some, arith, Bool-cases,
  Option-cases,
}
use engage_os.Base.Int.{ℤ, pos, ◌+ℤ◌, ◌-ℤ◌, ◌≤ℤ◌, ◌<ℤ◌, leb_ℤ, int_laws}
use engage_os.Core.Exceptions.{Error, not_found, conflict}
use engage_os.Core.Action.{Result, ok, err, bind_to, bind_stop}
use engage_os.Core.Money.{Money}
use engage_os.Core.Table.{get, get-update_self, get_pk}
use engage_os.Receivables.Outstanding.{sum_outstanding}
use engage_os.Fulfilment.{SalesOrder, order_model, so_confirmed}
use engage_os.Fulfilment.Orders.{
  Contact, contact_model, Desk, credit_notes_total, has_available, check_credit_limit, is_so_draft,
  so_total, set_so_confirmed, confirm_checked, confirm_draft, confirm_order,
}

-- What the customer owes and the order together, less the credit notes, are within the limit.
abbrev IsWithin : Money → Money → Money → Money → Type 0
IsWithin limit outstanding notes amount = outstanding +ℤ amount ≤ℤ limit +ℤ notes

-- A limit that counts is a positive one.
abbrev pub Affords : Option Money → Money → Money → Money → Type 0
Affords none outstanding notes amount = Unit
Affords (some limit) outstanding notes amount =
    (pos 0 <ℤ limit) → IsWithin limit outstanding notes amount

abbrev pub Exceeds : Option Money → Money → Money → Money → Type 0
Exceeds none outstanding notes amount = ⊥
Exceeds (some limit) outstanding notes amount =
    (pos 0 <ℤ limit) × (limit +ℤ notes <ℤ outstanding +ℤ amount)

leb_ℤ-true : (a b : ℤ) → leb_ℤ a b ≡ true → a ≤ℤ b
leb_ℤ-true a b h = ground arith

leb_ℤ-false : (a b : ℤ) → leb_ℤ a b ≡ false → b <ℤ a
leb_ℤ-false a b h = ground arith

not_positive : (a x y : ℤ) → a ≤ℤ pos 0 → pos 0 <ℤ a → x ≤ℤ y
not_positive a x y h k = omega arith

fits :
    (limit out notes amount : Money)
    → leb_ℤ amount (limit -ℤ (out -ℤ notes)) ≡ true
    → out +ℤ amount ≤ℤ limit +ℤ notes
fits limit out notes amount h =
    let below = leb_ℤ-true amount (limit -ℤ (out -ℤ notes)) h in omega int_laws

over :
    (limit out notes amount : Money)
    → leb_ℤ amount (limit -ℤ (out -ℤ notes)) ≡ false
    → limit +ℤ notes <ℤ out +ℤ amount
over limit out notes amount h =
    let above = leb_ℤ-false amount (limit -ℤ (out -ℤ notes)) h in omega int_laws

has_available_lem :
    (limit : Option Money) (out notes amount : Money)
    → ((has_available limit out notes amount ≡ true) × Affords limit out notes amount)
      ⊎ ((has_available limit out notes amount ≡ false) × Exceeds limit out notes amount)
has_available_lem none out notes amount = inl (refl, tt)
has_available_lem (some limit) out notes amount = elim (Bool-cases (leb_ℤ limit (pos 0))) [
  | inl h ↦
      inl (
        rw h refl,
        not_positive limit (out +ℤ amount) (limit +ℤ notes) (leb_ℤ-true limit (pos 0) h),
      )
  | inr h ↦ elim (Bool-cases (leb_ℤ amount (limit -ℤ (out -ℤ notes)))) [
    | inl e ↦ inl (rw (h, e) refl, λ positive. fits limit out notes amount e)
    | inr e ↦ inr (rw (h, e) refl, (leb_ℤ-false limit (pos 0) h, over limit out notes amount e))
  ]
]

abbrev pub out_of : ℕ → Desk → Money
out_of customer_id s = sum_outstanding (some customer_id) s.invoices

abbrev pub notes_of : ℕ → Desk → Money
notes_of customer_id s = credit_notes_total customer_id s.credit_notes

-- What the confirmation of an order returns and leaves.
pub data OrderOutcome (i : ℕ) (s : Desk) : Result (Option SalesOrder) × Desk → Type 0 where
  unknown : get i s.orders ≡ none → OrderOutcome i s (err not_found, s)
  not_draft :
      (o : SalesOrder)
      → get i s.orders ≡ some o
      → is_so_draft o.status ≡ false
      → OrderOutcome i s (err conflict, s)
  no_customer :
      (o : SalesOrder)
      → get i s.orders ≡ some o
      → is_so_draft o.status ≡ true
      → get o.customer_id s.contacts ≡ none
      → OrderOutcome i s (err not_found, s)
  over_limit :
      (o : SalesOrder) (c : Contact)
      → get i s.orders ≡ some o
      → is_so_draft o.status ≡ true
      → get o.customer_id s.contacts ≡ some c
      → Exceeds c.credit_limit
          (out_of o.customer_id s)
          (notes_of o.customer_id s)
          (so_total i s.order_lines)
      → OrderOutcome i s (err conflict, s)
  confirmed :
      (o : SalesOrder) (c : Contact)
      → get i s.orders ≡ some o
      → is_so_draft o.status ≡ true
      → get o.customer_id s.contacts ≡ some c
      → Affords c.credit_limit
          (out_of o.customer_id s)
          (notes_of o.customer_id s)
          (so_total i s.order_lines)
      → OrderOutcome i s (ok (some (record o { status = so_confirmed })), set_so_confirmed i s)

module _ (c : ℕ) (amount : Money) (s : Desk) where
  no_contact : get c s.contacts ≡ none → check_credit_limit c amount s ≡ (err not_found, s)
  unfolding check_credit_limit
  no_contact e = rw e refl

  checked :
      (contact : Contact) {has_credit : Bool}
      → get c s.contacts ≡ some contact
      → has_available contact.credit_limit (out_of c s) (notes_of c s) amount ≡ has_credit
      → check_credit_limit c amount s ≡ (ok has_credit, s)
  unfolding check_credit_limit
  checked contact e h = rw (e, h) refl

module _ (o : SalesOrder) (s : Desk) (found : get o.id s.orders ≡ some o) where
  abbrev pub total : Money
  total = so_total o.id s.order_lines

  refused : confirm_checked o false s ≡ (err conflict, s)
  unfolding confirm_checked
  refused = refl

  accepted :
      confirm_checked o true s
      ≡ (ok (some (record o { status = so_confirmed })), set_so_confirmed o.id s)
  unfolding confirm_checked
  accepted =
      rw
        (get-update_self o.id (λ (x : SalesOrder). record x { status = so_confirmed }) s.orders
          {x = o} (λ x. refl) found)
        refl

  draft_to :
      {has_credit : Bool}
      → check_credit_limit o.customer_id total s ≡ (ok has_credit, s)
      → confirm_draft o s ≡ confirm_checked o has_credit s
  unfolding confirm_draft
  draft_to h = bind_to (check_credit_limit o.customer_id total) (confirm_checked o) s h

  draft_stop :
      {x : Error}
      → check_credit_limit o.customer_id total s ≡ (err x, s)
      → confirm_draft o s ≡ (err x, s)
  unfolding confirm_draft
  draft_stop h = bind_stop (check_credit_limit o.customer_id total) (confirm_checked o) s h

  not_drafted : is_so_draft o.status ≡ false → confirm_order o.id s ≡ (err conflict, s)
  unfolding confirm_order
  not_drafted h = rw (found, h) refl

  to_draft : is_so_draft o.status ≡ true → confirm_order o.id s ≡ confirm_draft o s
  unfolding confirm_order
  to_draft h = rw (found, h) refl

  -- A draft of a known customer, by what the customer can afford.
  pub confirm_order-draft :
      is_so_draft o.status ≡ true
      → (c : Contact) → get o.customer_id s.contacts ≡ some c
      → ((confirm_order o.id s
            ≡ (ok (some (record o { status = so_confirmed })), set_so_confirmed o.id s))
          × Affords c.credit_limit (out_of o.customer_id s) (notes_of o.customer_id s) total)
        ⊎ ((confirm_order o.id s ≡ (err conflict, s))
            × Exceeds c.credit_limit (out_of o.customer_id s) (notes_of o.customer_id s) total)
  confirm_order-draft draft c e =
      elim (has_available_lem c.credit_limit (out_of o.customer_id s) (notes_of o.customer_id s)
        total) [
          | inl (h, affords) ↦
              inl (
                to_draft draft ∙ draft_to (checked o.customer_id total s c e h) ∙ accepted,
                affords,
              )
          | inr (h, exceeds) ↦
              inr
                (to_draft draft ∙ draft_to (checked o.customer_id total s c e h) ∙ refused, exceeds)
        ]

  found_outcome : OrderOutcome o.id s (confirm_order o.id s)
  found_outcome = elim (Bool-cases (is_so_draft o.status)) [
    | inr h ↦ rw (not_drafted h) (not_draft o found h)
    | inl h ↦ elim (Option-cases (get o.customer_id s.contacts)) [
      | inl e ↦
          rw (to_draft h ∙ draft_stop (no_contact o.customer_id total s e))
            (no_customer o found h e)
      | inr (c, e) ↦ elim (confirm_order-draft h c e) [
        | inl (r, affords) ↦ rw r (confirmed o c found h e affords)
        | inr (r, exceeds) ↦ rw r (over_limit o c found h e exceeds)
      ]
    ]
  ]

-- Confirming an order raises and changes nothing where the order or its customer is unknown, where it
-- is no draft, or where the outstanding invoices and the order's lines exceed a positive limit of the
-- customer and the issued credit notes. Otherwise it returns the order as confirmed, and nothing but
-- its status changes: the customer has no positive limit, or these amounts are within it.
pub confirm_order-OrderOutcome : (i : ℕ) (s : Desk) → OrderOutcome i s (confirm_order i s)
unfolding confirm_order
confirm_order-OrderOutcome i s = elim (Option-cases (get i s.orders)) [
  | inl e ↦ rw e (unknown e)
  | inr (o, e) ↦
      subst (λ j. get j s.orders ≡ some o → OrderOutcome j s (confirm_order j s))
        (get_pk i s.orders e) (found_outcome o s) e
]

-- ===== src/Messaging/Worker/Budget.antt =====
-- How much the pending tasks of a message (backend/app/modules/messaging/tasks.py) can still do, in
-- terms of the columns that decide it.
use engage_os.Base.{
  ℕ, zero, suc, ◌+◌, ◌-◌, ◌≡◌, refl, ap, ◌∙◌, Bool, not, ◌&&◌, Option, none, some, List, [], ◌∷◌,
  ◌++◌, leb, if◌then◌else◌, arith, inl, inr, Bool-cases,
}
use engage_os.Conversations.Store.{DeliveryStatus}
use engage_os.Messaging.Delivery.{
  Task, send, reset, Delivery, is_failed_status, propagate_to_campaign_recipient, classify,
  retry_after, is_permanent_failure, advance_to, update_delivery_status_sync, code_if_failed,
}
use engage_os.Messaging.Delivery.Frame.{part-effects}
use engage_os.Messaging.Worker.{max_retries, keep_first, take_out}

-- The calls of Meta that a task can still make: one, and one for each retry it has left.
abbrev pub cost_of : Task → ℕ
cost_of (send attempt) = 1 + (max_retries - attempt)
cost_of reset = 0

abbrev pub costs : List Task → ℕ
costs [] = 0
costs (t ∷ ts) = cost_of t + costs ts

abbrev pub reset_bit : Task → ℕ
reset_bit (send attempt) = 0
reset_bit reset = 1

abbrev pub resets : List Task → ℕ
resets [] = 0
resets (t ∷ ts) = reset_bit t + resets ts

pub costs-append : (ts : List Task) (t : Task) → costs (ts ++ t ∷ []) ≡ costs ts + cost_of t
costs-append [] t = omega arith
costs-append (u ∷ ts) t = omega (arith, costs-append ts t)

pub resets-append : (ts : List Task) (t : Task) → resets (ts ++ t ∷ []) ≡ resets ts + reset_bit t
resets-append [] t = omega arith
resets-append (u ∷ ts) t = omega (arith, resets-append ts t)

-- What a task leaves behind when it is taken out.
abbrev pub IsTaken : List Task → Option (Task × List Task) → Type 0
IsTaken ts none = Unit
IsTaken ts (some (t, rest)) =
    (costs ts ≡ cost_of t + costs rest) × (resets ts ≡ reset_bit t + resets rest)

keep_first-IsTaken :
    (u : Task) (ts : List Task) (o : Option (Task × List Task))
    → IsTaken ts o
    → IsTaken (u ∷ ts) (keep_first u o)
keep_first-IsTaken u ts none h = tt
keep_first-IsTaken u ts (some (t, rest)) h = (omega (arith, h.0), omega (arith, h.1))

pub take_out-IsTaken : (n : ℕ) (ts : List Task) → IsTaken ts (take_out n ts)
take_out-IsTaken zero [] = tt
take_out-IsTaken (suc n) [] = tt
take_out-IsTaken zero (t ∷ ts) = (refl, refl)
take_out-IsTaken (suc n) (t ∷ ts) = keep_first-IsTaken t ts (take_out n ts) (take_out-IsTaken n ts)

-- The columns that decide what is sent.
abbrev pub Core : Type 0
Core = DeliveryStatus × (ℕ × (ℕ × List Task))

abbrev pub core : Delivery → Core
core d = (d.status, (d.calls, (d.delivery_retry_count, d.tasks)))

-- Whether a retry is scheduled with a new status.
abbrev pub schedules : Bool → DeliveryStatus → Option ℕ → ℕ → Bool
schedules enabled st code delivery_retry_count =
    (is_failed_status st && not (is_permanent_failure code))
    && (not (leb 3 delivery_retry_count) && enabled)

-- The columns once a retry has been scheduled, if it is.
abbrev pub with_reset : Bool → Core → Core
with_reset b (st, (calls, (n, ts))) = (st, (calls, (n, if b then ts ++ reset ∷ [] else ts)))

abbrev pub reset_by : Bool → DeliveryStatus → Option ℕ → Core → Core
reset_by enabled st code c = with_reset (schedules enabled st code c.1.1.0) c

core-retry_after :
    (enabled : Bool) (st : DeliveryStatus) (code : Option ℕ) (d : Delivery)
    → core (retry_after enabled st code d) ≡ reset_by enabled st code (core d)
core-retry_after enabled st code d =
    elim (Bool-cases (is_failed_status st && not (is_permanent_failure code))) [
      | inr e ↦ rw e refl
      | inl e ↦ elim (Bool-cases (leb 3 d.delivery_retry_count)) [
        | inl e' ↦ rw (e, e') refl
        | inr e' ↦ elim (Bool-cases enabled) [
          | inl b ↦ rw (e, e', b) refl
          | inr b ↦ rw (e, e', b) refl
        ]
      ]
    ]

-- A callback that advances a message writes its status, and schedules at most one reset.
pub core-advance_to :
    (enabled : Bool) (wamid : ℕ) (st : DeliveryStatus) (code : Option ℕ) (d : Delivery)
    → core (advance_to enabled wamid st code d)
      ≡ reset_by enabled st
          (code_if_failed st code)
          (st, (d.calls, (d.delivery_retry_count, d.tasks)))
unfolding advance_to
core-advance_to enabled wamid st code d =
    let c = code_if_failed st code in
    let written = update_delivery_status_sync st c none d in
    core-retry_after enabled st c
      (classify st c (propagate_to_campaign_recipient wamid st c written))
    ∙ ap (reset_by enabled st c)
        (part-effects core (λ d r a b. refl) (λ d ts u. refl) wamid st c written)

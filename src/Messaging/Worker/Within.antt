-- ===== src/Messaging/Worker/Within.antt =====
-- The columns of a message that decide what is sent (backend/app/modules/messaging/tasks.py), and
-- what the tasks and callbacks make of them.
use engage_os.Base.{
  ℕ, ◌+◌, ◌-◌, ◌*◌, ◌≤◌, ◌≡◌, refl, Bool, true, false, not, ◌&&◌, Option, List, [], ◌∷◌, ◌++◌, leb,
  arith, and-eq_true,
}
use engage_os.Conversations.Store.{
  DeliveryStatus, pending, draft, queued, sent, delivered, read, failed,
}
use engage_os.Messaging.Delivery.{
  Task, send, reset, delivery_rank, is_failed_status, is_permanent_failure,
}
use engage_os.Messaging.Worker.{is_queued}
use engage_os.Messaging.Worker.Budget.{
  cost_of, costs, reset_bit, resets, costs-append, resets-append, Core, schedules, with_reset,
}

-- At most five calls for each of the four times that the message can be queued; and a reset is only
-- pending for a message that has failed or arrived, while there are retries left.
abbrev pub IsWithin : Core → Type 0
IsWithin (st, (calls, (n, ts))) =
    (calls + (costs ts + 5 * (3 - n)) ≤ 20)
    × ((4 * resets ts ≤ delivery_rank st) × (resets ts + n ≤ 3))

pub failed_rank : (st : DeliveryStatus) → is_failed_status st ≡ true → delivery_rank st ≡ 4
failed_rank failed h = refl
failed_rank pending h = cc
failed_rank draft h = cc
failed_rank queued h = cc
failed_rank sent h = cc
failed_rank delivered h = cc
failed_rank read h = cc

below_three : (n : ℕ) → not (leb 3 n) ≡ true → n + 1 ≤ 3
below_three n h = ground arith

pub schedules-true :
    (enabled : Bool) (st : DeliveryStatus) (code : Option ℕ) (n : ℕ)
    → schedules enabled st code n ≡ true
    → (is_failed_status st ≡ true) × (n + 1 ≤ 3)
schedules-true enabled st code n h =
    let (transient, allowed) =
      and-eq_true (is_failed_status st && not (is_permanent_failure code))
        (not (leb 3 n) && enabled) h in
    (
      (and-eq_true (is_failed_status st) (not (is_permanent_failure code)) transient).0,
      below_three n (and-eq_true (not (leb 3 n)) enabled allowed).0,
    )

pub advanced :
    (b : Bool) (st old : DeliveryStatus) (calls n : ℕ) (ts : List Task)
    → delivery_rank old + 1 ≤ delivery_rank st
    → (b ≡ true → (delivery_rank st ≡ 4) × (n + 1 ≤ 3))
    → IsWithin (old, (calls, (n, ts)))
    → IsWithin (with_reset b (st, (calls, (n, ts))))
advanced true st old calls n ts up h (a, (b, c)) =
    let (four, left) = h refl in
    (
      omega (arith, costs-append ts reset),
      (omega (arith, resets-append ts reset), omega (arith, resets-append ts reset)),
    )
advanced false st old calls n ts up h (a, (b, c)) = (a, (omega arith, c))

pub higher : (a b : ℕ) → leb a b ≡ false → b + 1 ≤ a
higher a b h = ground arith

-- The same with one task taken out.
abbrev pub IsWithinTask : Task → Core → Type 0
IsWithinTask t (st, (calls, (n, ts))) =
    (calls + (cost_of t + costs ts + 5 * (3 - n)) ≤ 20)
    × ((4 * (reset_bit t + resets ts) ≤ delivery_rank st) × (reset_bit t + resets ts + n ≤ 3))

-- What a run of the task may do to the columns: a send or two sorts of reset.
pub dropped : (t : Task) (c : Core) → IsWithinTask t c → IsWithin c
dropped t (st, (calls, (n, ts))) (a, (b, c)) = (omega arith, (omega arith, omega arith))

pub postponed :
    (attempt : ℕ) (st : DeliveryStatus) (calls n : ℕ) (ts : List Task)
    → IsWithinTask (send attempt) (st, (calls, (n, ts)))
    → IsWithin (st, (calls, (n, ts ++ send (attempt + 1) ∷ [])))
postponed attempt st calls n ts (a, (b, c)) =
    let more = costs-append ts (send (attempt + 1)) in
    let same = resets-append ts (send (attempt + 1)) in
    (omega (arith, more), (omega (arith, same), omega (arith, same)))

queued_rank : (st : DeliveryStatus) → is_queued st ≡ true → delivery_rank st ≡ 2
queued_rank queued h = refl
queued_rank pending h = cc
queued_rank draft h = cc
queued_rank sent h = cc
queued_rank delivered h = cc
queued_rank read h = cc
queued_rank failed h = cc

pub called :
    (attempt : ℕ) (st new : DeliveryStatus) (calls n : ℕ) (ts : List Task)
    → is_queued st ≡ true
    → IsWithinTask (send attempt) (st, (calls, (n, ts)))
    → IsWithin (new, (calls + 1, (n, ts)))
called attempt st new calls n ts q (a, (b, c)) =
    let two = queued_rank st q in (omega arith, (omega arith, omega arith))

pub called_again :
    (attempt : ℕ) (st : DeliveryStatus) (calls n : ℕ) (ts : List Task)
    → attempt + 1 ≤ 4
    → IsWithinTask (send attempt) (st, (calls, (n, ts)))
    → IsWithin (st, (calls + 1, (n, ts ++ send (attempt + 1) ∷ [])))
called_again attempt st calls n ts left (a, (b, c)) =
    let more = costs-append ts (send (attempt + 1)) in
    let same = resets-append ts (send (attempt + 1)) in
    (omega (arith, more), (omega (arith, same), omega (arith, same)))

pub requeued :
    (st : DeliveryStatus) (calls n : ℕ) (ts : List Task)
    → delivery_rank st ≡ 4
    → IsWithinTask reset (st, (calls, (n, ts)))
    → IsWithin (queued, (calls, (n + 1, ts ++ send 0 ∷ [])))
requeued st calls n ts four (a, (b, c)) =
    let more = costs-append ts (send 0) in
    let same = resets-append ts (send 0) in
    (omega (arith, more), (omega (arith, same), omega (arith, same)))

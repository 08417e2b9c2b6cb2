-- ===== src/Messaging/Worker/Bounded.antt =====
-- The calls of Meta for one message, whatever its callbacks, failures and retries
-- (backend/app/modules/messaging/tasks.py).
use engage_os.Base.{
  ℕ, ◌+◌, ◌≤◌, ◌≡◌, refl, sym, Bool, true, false, Option, none, some, List, [], ◌∷◌, leb, ltb,
  arith, inl, inr, Bool-cases,
}
use engage_os.Conversations.Store.{DeliveryStatus, queued, sent, failed, is_value}
use engage_os.Messaging.Delivery.{
  Task, send, reset, Delivery, status_map, delivery_rank, is_failed_status, push_task,
  advance_found, advance_to, apply_status_update, code_if_failed, update_delivery_status_sync,
}
use engage_os.Messaging.Worker.{
  MetaResult, accepted, refused, max_retries, redis_down_max_retries, is_queued, backfill,
  retry_task, handle_send_failure, after_call, reset_and_retry_message, Weather, run_task, take_out,
  Event, run, lost, callback, lost_call, lost_in, lost_calls, run_taken, happen, after_events,
}
use engage_os.Messaging.Worker.Budget.{IsTaken, take_out-IsTaken, core, schedules, core-advance_to}
use engage_os.Messaging.Worker.Within.{
  IsWithin, IsWithinTask, failed_rank, schedules-true, advanced, higher, dropped, postponed, called,
  called_again, requeued,
}
use mathlib.Core.Path.{subst}

unfoldable pub IsBudgeted : Delivery → Type 0
IsBudgeted d = IsWithin (core d)

advance_to-IsBudgeted :
    (enabled : Bool) (wamid : ℕ) (st : DeliveryStatus) (code : Option ℕ) (d : Delivery)
    → leb (delivery_rank st) (delivery_rank d.status) ≡ false
    → IsBudgeted d
    → IsBudgeted (advance_to enabled wamid st code d)
unfolding IsBudgeted
advance_to-IsBudgeted enabled wamid st code d up v =
    let c = code_if_failed st code in
    let b = schedules enabled st c d.delivery_retry_count in
    let start : b ≡ true → (delivery_rank st ≡ 4) × (d.delivery_retry_count + 1 ≤ 3) = λ h.
      let (is, left) = schedules-true enabled st c d.delivery_retry_count h in
      (failed_rank st is, left) in
    subst IsWithin (sym (core-advance_to enabled wamid st code d)) (
      advanced b st d.status d.calls d.delivery_retry_count d.tasks
        (higher (delivery_rank st) (delivery_rank d.status) up) start v)

advance_found-IsBudgeted :
    (enabled : Bool) (wamid : ℕ) (st : Option DeliveryStatus) (code : Option ℕ) (d : Delivery)
    → IsBudgeted d
    → IsBudgeted (advance_found enabled wamid st code d)
advance_found-IsBudgeted enabled wamid none code d v = v
advance_found-IsBudgeted enabled wamid (some st) code d v =
    elim (Bool-cases (is_value d.meta_message_id wamid)) [
      | inr e ↦ rw e v
      | inl e ↦ elim (Bool-cases (leb (delivery_rank st) (delivery_rank d.status))) [
        | inl low ↦ rw (e, low) v
        | inr up ↦ rw (e, up) (advance_to-IsBudgeted enabled wamid st code d up v)
      ]
    ]

-- A message from which a task has been taken to be run.
unfoldable IsBudgetedTask : Task → Delivery → Type 0
IsBudgetedTask t d = IsWithinTask t (core d)

core-backfill : (wamid : Option ℕ) (d : Delivery) → core (backfill wamid d) ≡ core d
core-backfill none d = refl
core-backfill (some w) d = refl

left_over : (n : ℕ) → ltb 4 n ≡ false → n ≤ 4
left_over n h = ground arith

-- The workers that are lost.
abbrev pub is_lost : Event → ℕ
is_lost (run n w) = 0
is_lost (lost n w) = 1
is_lost (callback enabled wamid text code) = 0

abbrev pub losses : List Event → ℕ
losses [] = 0
losses (e ∷ es) = is_lost e + losses es

module _ (is_retried : ℕ → ℕ → Bool) where
  lost_call_lem : (w : Weather) (o : Option (Task × List Task)) (d : Delivery) → lost_call w o d ≤ 1
  lost_call_lem w none d = omega arith
  lost_call_lem w (some (reset, rest)) d = omega arith
  lost_call_lem w (some (send attempt, rest)) d = ground arith

  retry_task-IsWithin :
      (attempt max : ℕ) (d : Delivery)
      → IsWithin (core (push_task (send (attempt + 1)) d))
      → IsWithin (core d)
      → IsWithin (core (retry_task is_retried attempt max d))
  retry_task-IsWithin attempt max d again gone = elim (Bool-cases (is_retried attempt max)) [
    | inl e ↦ rw e again
    | inr e ↦ rw e gone
  ]

  -- The state in which the client is called: the count of the calls is up, and the task is out.
  failure-IsWithin :
      (attempt : ℕ) (retryable : Bool) (code : Option ℕ) (d : Delivery)
      → is_queued d.status ≡ true
      → IsBudgetedTask (send attempt) d
      → IsWithin (
          core (
            handle_send_failure is_retried attempt retryable code
              (record d { calls = d.calls + 1 })))
  unfolding IsBudgetedTask
  failure-IsWithin attempt false code d q v =
      called attempt d.status failed d.calls d.delivery_retry_count d.tasks q v
  failure-IsWithin attempt true code d q v = elim (Bool-cases (ltb max_retries (attempt + 1))) [
    | inl e ↦ rw e (called attempt d.status failed d.calls d.delivery_retry_count d.tasks q v)
    | inr e ↦ rw e (
        retry_task-IsWithin attempt max_retries
          (record d { calls = d.calls + 1; retry_count = d.retry_count + 1 })
          (called_again attempt d.status d.calls d.delivery_retry_count d.tasks
            (left_over (attempt + 1) e) v)
          (called attempt d.status d.status d.calls d.delivery_retry_count d.tasks q v))
  ]

  after_call-IsWithin :
      (result : MetaResult) (attempt : ℕ) (d : Delivery)
      → is_queued d.status ≡ true
      → IsBudgetedTask (send attempt) d
      → IsWithin (core (after_call is_retried result attempt (record d { calls = d.calls + 1 })))
  unfolding IsBudgetedTask
  after_call-IsWithin (accepted wamid) attempt d q v =
      subst IsWithin
        (sym (
          core-backfill wamid
            (update_delivery_status_sync sent none wamid (record d { calls = d.calls + 1 }))))
        (called attempt d.status sent d.calls d.delivery_retry_count d.tasks q v)
  after_call-IsWithin (refused retryable code) attempt d q v =
      failure-IsWithin attempt retryable code d q v

  send-IsWithin :
      (w : Weather) (attempt : ℕ) (d : Delivery)
      → IsBudgetedTask (send attempt) d
      → IsWithin (core (run_task is_retried w (send attempt) d))
  unfolding IsBudgetedTask
  send-IsWithin w attempt d v = elim (Bool-cases w.redis_healthy) [
    | inr e ↦ rw e (
        retry_task-IsWithin attempt redis_down_max_retries d
          (postponed attempt d.status d.calls d.delivery_retry_count d.tasks v)
          (dropped (send attempt) (core d) v))
    | inl e ↦ elim (Bool-cases (is_queued d.status)) [
      | inr q ↦ rw (e, q) (dropped (send attempt) (core d) v)
      | inl q ↦ rw (e, q) (after_call-IsWithin w.result attempt d q v)
    ]
  ]

  reset-IsWithin :
      (enabled : Bool) (d : Delivery)
      → IsBudgetedTask reset d
      → IsWithin (core (reset_and_retry_message is_retried enabled d))
  unfolding IsBudgetedTask
  reset-IsWithin false d v = dropped reset (core d) v
  reset-IsWithin true d v = elim (Bool-cases (is_failed_status d.status)) [
    | inr e ↦ rw e (dropped reset (core d) v)
    | inl e ↦
        rw e (requeued d.status d.calls d.delivery_retry_count d.tasks (failed_rank d.status e) v)
  ]

  run_taken-IsBudgeted :
      (w : Weather) (d : Delivery) (o : Option (Task × List Task))
      → IsTaken d.tasks o
      → IsBudgeted d
      → IsBudgeted (run_taken is_retried w o d)
  unfolding IsBudgeted IsBudgetedTask
  run_taken-IsBudgeted w d none h v = v
  run_taken-IsBudgeted w d (some (send attempt, rest)) (cost, bits) (a, (b, c)) =
      send-IsWithin w attempt (record d { tasks = rest })
        (omega (arith, cost), (omega (arith, bits), omega (arith, bits)))
  run_taken-IsBudgeted w d (some (reset, rest)) (cost, bits) (a, (b, c)) =
      reset-IsWithin w.retry_enabled (record d { tasks = rest })
        (omega (arith, cost), (omega (arith, bits), omega (arith, bits)))

  happen-IsBudgeted : (e : Event) (d : Delivery) → IsBudgeted d → IsBudgeted (happen is_retried e d)
  unfolding happen apply_status_update
  happen-IsBudgeted (run n w) d v =
      run_taken-IsBudgeted w d (take_out n d.tasks) (take_out-IsTaken n d.tasks) v
  happen-IsBudgeted (lost n w) d v = v
  happen-IsBudgeted (callback enabled wamid text code) d v =
      advance_found-IsBudgeted enabled wamid (status_map text) code d v

  after_events-IsBudgeted :
      (es : List Event) (d : Delivery) → IsBudgeted d → IsBudgeted (after_events is_retried es d)
  unfolding after_events
  after_events-IsBudgeted [] d v = v
  after_events-IsBudgeted (e ∷ es) d v =
      after_events-IsBudgeted es (happen is_retried e d) (happen-IsBudgeted e d v)

  lost_in_lem : (e : Event) (d : Delivery) → lost_in e d ≤ is_lost e
  lost_in_lem (run n w) d = omega arith
  lost_in_lem (callback enabled wamid text code) d = omega arith
  lost_in_lem (lost n w) d = lost_call_lem w (take_out n d.tasks) d

  lost_calls_lem : (es : List Event) (d : Delivery) → lost_calls is_retried es d ≤ losses es
  unfolding lost_calls
  lost_calls_lem [] d = omega arith
  lost_calls_lem (e ∷ es) d =
      omega (arith, lost_in_lem e d, lost_calls_lem es (happen is_retried e d))

  -- A message that has been queued once, with one task to send it, is sent to Meta at most twenty
  -- times, and once more for each worker that is lost in a run before its commit: whatever the order of
  -- its tasks and callbacks, whichever calls of Meta and probes of Redis fail, and whatever retries
  -- Celery refuses.
  -- A task that has been committed is not delivered again, and no two workers run one task at once.
  pub after_events-calls :
      (es : List Event) (d : Delivery)
      → d.status ≡ queued
      → d.delivery_retry_count ≡ 0
      → d.calls ≡ 0
      → d.tasks ≡ send 0 ∷ []
      → (after_events is_retried es d).calls + lost_calls is_retried es d ≤ 20 + losses es
  unfolding IsBudgeted
  after_events-calls es d st n calls ts =
      let (spent, rest) =
        after_events-IsBudgeted es d
          (rw (st, n, calls, ts) (omega arith, (omega arith, omega arith))) in
      omega (arith, lost_calls_lem es d)

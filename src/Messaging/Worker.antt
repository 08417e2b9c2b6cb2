-- ===== src/Messaging/Worker.antt =====
-- backend/app/modules/messaging/tasks.py: `send_outbound_message_task` but for the contact's status and
-- the reordering of the inbox, `_handle_send_failure` and `reset_and_retry_message_task`, on one
-- message. A run of a task is taken as a whole, up to its commit, and
-- a task that has run is gone: that a task is delivered again after its commit, or to two workers at
-- once, is not modelled. Celery is a parameter: `is_retried n max` says
-- whether `self.retry` with that `max_retries` puts a task that has been retried `n` times back.
pub mod Budget
pub mod Within
pub mod Bounded
pub mod Drained
use engage_os.Base.{
  ℕ, zero, suc, ◌+◌, ◌≡◌, Bool, true, false, not, ◌||◌, ◌&&◌, Option, none, some, List, [], ◌∷◌,
  ◌++◌, ltb, if◌then◌else◌,
}
use engage_os.Conversations.Store.{
  DeliveryStatus, pending, draft, queued, sent, delivered, read, failed,
}
use engage_os.Messaging.Delivery.{
  Task, send, reset, CampaignRecipient, Delivery, StatusText, is_failed_status,
  update_delivery_status_sync, push_task, apply_status_update,
}

-- What the Meta client does: it returns a response, with or without an id, or raises a MetaAPIError.
pub data MetaResult : Type 0 where
  accepted : Option ℕ → MetaResult
  refused : Bool → Option ℕ → MetaResult

-- `_MAX_RETRIES` and `_REDIS_DOWN_MAX_RETRIES`
abbrev pub max_retries : ℕ
max_retries = 4

abbrev pub redis_down_max_retries : ℕ
redis_down_max_retries = 30

abbrev pub is_queued : DeliveryStatus → Bool
is_queued queued = true
is_queued pending = false
is_queued draft = false
is_queued sent = false
is_queued delivered = false
is_queued read = false
is_queued failed = false

-- `_backfill_campaign_recipient_meta_id`, with the recipient of this message.
abbrev pub with_meta_id : ℕ → Option CampaignRecipient → Option CampaignRecipient
with_meta_id wamid none = none
with_meta_id wamid (some r) = some (record r { meta_message_id = some wamid })

abbrev pub backfill : Option ℕ → Delivery → Delivery
backfill none d = d
backfill (some wamid) d = record d { recipient = with_meta_id wamid d.recipient }

-- `increment_retry_sync`
abbrev pub increment_retry : Bool → Delivery → Delivery
increment_retry retryable d = if retryable then record d { retry_count = d.retry_count + 1 } else d

-- What a run of a task meets.
pub record Weather : Type 0 where
  pub redis_healthy : Bool
  pub retry_enabled : Bool
  pub result : MetaResult

module _ (is_retried : ℕ → ℕ → Bool) where
  abbrev pub retry_task : ℕ → ℕ → Delivery → Delivery
  retry_task attempt max d = if is_retried attempt max then push_task (send (attempt + 1)) d else d

  -- `_handle_send_failure`
  abbrev pub handle_send_failure : ℕ → Bool → Option ℕ → Delivery → Delivery
  handle_send_failure attempt retryable code d =
      if not retryable || ltb max_retries (attempt + 1)
      then update_delivery_status_sync failed code none (increment_retry retryable d)
      else retry_task attempt max_retries (increment_retry retryable d)

  abbrev pub after_call : MetaResult → ℕ → Delivery → Delivery
  after_call (accepted wamid) attempt d =
      backfill wamid (update_delivery_status_sync sent none wamid d)
  after_call (refused retryable code) attempt d = handle_send_failure attempt retryable code d

  -- `send_outbound_message_task`
  abbrev pub send_outbound_message : Bool → MetaResult → ℕ → Delivery → Delivery
  send_outbound_message redis_healthy result attempt d =
      if not redis_healthy
      then retry_task attempt redis_down_max_retries d
      else if not (is_queued d.status)
      then d
      else after_call result attempt (record d { calls = d.calls + 1 })

  -- `reset_and_retry_message_task`
  abbrev pub reset_and_retry_message : Bool → Delivery → Delivery
  reset_and_retry_message enabled d =
      if not enabled
      then d
      else if not (is_failed_status d.status)
      then d
      else push_task (send 0) (
          update_delivery_status_sync queued none none
            (record d { delivery_retry_count = d.delivery_retry_count + 1 }))

  abbrev pub run_task : Weather → Task → Delivery → Delivery
  run_task w (send attempt) d = send_outbound_message w.redis_healthy w.result attempt d
  run_task w reset d = reset_and_retry_message w.retry_enabled d

-- A pending task, and those that stay.
abbrev pub keep_first : Task → Option (Task × List Task) → Option (Task × List Task)
keep_first t none = none
keep_first t (some (u, rest)) = some (u, t ∷ rest)

abbrev pub take_out : ℕ → List Task → Option (Task × List Task)
take_out n [] = none
take_out zero (t ∷ ts) = some (t, ts)
take_out (suc n) (t ∷ ts) = keep_first t (take_out n ts)

-- A worker runs one of the pending tasks; or it is lost in a run before its commit, and the broker
-- delivers the task again (acks_late, task_reject_on_worker_lost); or a callback arrives.
pub data Event : Type 0 where
  run : ℕ → Weather → Event
  lost : ℕ → Weather → Event
  callback : Bool → ℕ → StatusText → Option ℕ → Event

-- A lost run may have called Meta: nothing else of it is left.
abbrev pub lost_call : Weather → Option (Task × List Task) → Delivery → ℕ
lost_call w none d = 0
lost_call w (some (send attempt, rest)) d = if w.redis_healthy && is_queued d.status then 1 else 0
lost_call w (some (reset, rest)) d = 0

abbrev pub lost_in : Event → Delivery → ℕ
lost_in (run n w) d = 0
lost_in (lost n w) d = lost_call w (take_out n d.tasks) d
lost_in (callback enabled wamid text code) d = 0

module _ (is_retried : ℕ → ℕ → Bool) where
  abbrev pub run_taken : Weather → Option (Task × List Task) → Delivery → Delivery
  run_taken w none d = d
  run_taken w (some (t, rest)) d = run_task is_retried w t (record d { tasks = rest })

  unfoldable pub happen : Event → Delivery → Delivery
  happen (run n w) d = run_taken w (take_out n d.tasks) d
  happen (lost n w) d = d
  happen (callback enabled wamid text code) d = apply_status_update enabled wamid text code d

  unfoldable pub lost_calls : List Event → Delivery → ℕ
  lost_calls [] d = 0
  lost_calls (e ∷ es) d = lost_in e d + lost_calls es (happen e d)

  unfoldable pub after_events : List Event → Delivery → Delivery
  after_events [] d = d
  after_events (e ∷ es) d = after_events es (happen e d)

-- ===== src/Messaging/Tests.antt =====
-- Small runs of the delivery of one message, and the theorems at it.
use mathlib.Core.List.Perm
use engage_os.Base.{
  ℕ, ◌+◌, ◌≤◌, ◌≡◌, refl, Bool, true, false, none, some, List, [], ◌∷◌, ◌++◌, ltb, arith,
}
use engage_os.Conversations.Store.{queued, sent, delivered, failed}
use engage_os.Messaging.Delivery.{
  send, is_sent, Delivery, text_delivered, text_failed, delivery_rank, apply_status_update,
  advance_to,
}
use engage_os.Messaging.Delivery.Order.{Callback, strongest, apply_updates, apply_updates-Perm}
use engage_os.Messaging.Worker.{
  accepted, refused, Weather, Event, run, lost, callback, happen, lost_calls, after_events,
}
use engage_os.Messaging.Worker.Bounded.{losses, after_events-calls}
use engage_os.Messaging.Worker.Drained.{work, work-ends}

-- Celery's rule.
abbrev celery : ℕ → ℕ → Bool
celery n max = ltb n max

celery_within : (n max : ℕ) → celery n max ≡ true → n + 1 ≤ max
celery_within n max h = ground arith

abbrev start : Delivery
start = record {
  status = queued;
  is_outbound = true;
  meta_message_id = none;
  retry_count = 0;
  delivery_retry_count = 0;
  error_code = none;
  recipient = some (record { meta_message_id = none; status = is_sent; error_code = none });
  delivered_count = 0;
  failed_count = 0;
  tags = [];
  outreach_undeliverable = false;
  tasks = send 0 ∷ [];
  calls = 0;
}

abbrev fine : Weather
fine = record { redis_healthy = true; retry_enabled = true; result = accepted (some 77) }

abbrev refusing : Weather
refusing = record { redis_healthy = true; retry_enabled = true; result = refused true none }

abbrev no_redis : Weather
no_redis = record { redis_healthy = false; retry_enabled = true; result = accepted none }

abbrev fail_again : List Event
fail_again = run 0 fine ∷ callback true 77 text_failed (some 131000) ∷ run 0 fine ∷ []

-- After a failed delivery the message is queued again, and still has the id of the first send, so that
-- a late callback on the first send is taken for one on the second.
late_callback :
    (after_events celery (fail_again ++ callback true 77 text_delivered none ∷ []) start).status
    ≡ delivered
unfolding after_events happen apply_status_update advance_to
late_callback = refl

-- Five calls before the message fails for good.
five_calls :
    let d =
      after_events celery
        (run 0 refusing ∷ run 0 refusing ∷ run 0 refusing ∷ run 0 refusing ∷ run 0 refusing ∷ [])
        start in
    (d.calls ≡ 5) × (d.status ≡ failed)
unfolding after_events happen
five_calls = (refl, refl)

-- Four postponements for Redis leave a single call.
one_call :
    let d =
      after_events celery
        (run 0 no_redis ∷ run 0 no_redis ∷ run 0 no_redis ∷ run 0 no_redis ∷ run 0 refusing ∷ [])
        start in
    (d.calls ≡ 1) × (d.status ≡ failed)
unfolding after_events happen
one_call = (refl, refl)

-- A recipient whose delivery fails and then succeeds is counted on both sides.
counted_twice :
    let d =
      after_events celery
        (run 0 fine ∷ callback true 77 text_failed none ∷ callback true 77 text_delivered none ∷ [])
        start in
    (d.delivered_count ≡ 1) × (d.failed_count ≡ 1)
unfolding after_events happen apply_status_update advance_to
counted_twice = (refl, refl)

-- A worker is lost behind its call: the task calls Meta again.
abbrev interrupted : List Event
interrupted = lost 0 fine ∷ fail_again

sent_again :
    ((after_events celery interrupted start).calls ≡ 1) × (lost_calls celery interrupted start ≡ 1)
unfolding after_events lost_calls happen apply_status_update advance_to
sent_again = (refl, refl)

after_events-calls_example :
    (after_events celery interrupted start).calls + lost_calls celery interrupted start
    ≤ 20 + losses interrupted
after_events-calls_example = after_events-calls celery interrupted start refl refl refl refl

abbrev late : Delivery
late = record start { tasks = send 29 ∷ [] }

work-ends_example : (work celery (no_redis ∷ refusing ∷ []) late).tasks ≡ []
work-ends_example = work-ends celery celery_within (no_redis ∷ refusing ∷ []) late (omega arith)

abbrev on_its_way : Delivery
on_its_way = record start { status = sent; meta_message_id = some 77; tasks = [] }

abbrev failed_one : Callback
failed_one = record { retry_enabled = true; text = text_failed; error_code = some 131026 }

abbrev delivered_one : Callback
delivered_one = record { retry_enabled = true; text = text_delivered; error_code = none }

apply_updates-Perm_example :
    (delivery_rank (apply_updates 77 (delivered_one ∷ failed_one ∷ []) on_its_way).status
      ≡ strongest (delivered_one ∷ failed_one ∷ []) (delivery_rank on_its_way.status))
    × ((apply_updates 77 (delivered_one ∷ failed_one ∷ []) on_its_way).status
        ≡ (apply_updates 77 (failed_one ∷ delivered_one ∷ []) on_its_way).status)
apply_updates-Perm_example =
    apply_updates-Perm 77 (delivered_one ∷ failed_one ∷ []) (failed_one ∷ delivered_one ∷ [])
      on_its_way refl (Perm.swap failed_one delivered_one [])

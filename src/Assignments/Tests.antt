-- ===== src/Assignments/Tests.antt =====
-- A few locks: tests of the code of backend/app/modules/assignments, and the theorems at it.
use engage_os.Base.{ℕ, ◌-◌, ◌≡◌, refl, false, none, some, List, [], ◌∷◌, length, map, arith}
use engage_os.Core.Exceptions.{conversation_locked}
use engage_os.Core.Action.{ok, err}
use engage_os.Core.Table.Count.{count, DistinctKeys}
use engage_os.Conversations.StateMachine.{human_assigned}
use engage_os.Conversations.Store.{Conversation, conversation_model, Inbox}
use engage_os.Conversations.Service.Valid.{IsValid}
use engage_os.Conversations.Requests.{inbound, assign_to}
use engage_os.Assignments.{renew_lock, drop_lock}
use engage_os.Assignments.Sweep.{
  batch_limit, is_expired, order_by_expiry, insert_by_expiry, expired_rows, limit,
  expire_stale_locks_task, expire_each, record_expiry, clear_lock,
}
use engage_os.Assignments.Sweep.Drained.{
  expire_stale_locks_task_lem, after_ticks, after_ticks-is_expired,
}
use engage_os.Assignments.Held.{not_holder}
use engage_os.Assignments.Kept.{
  Activity, request, take, renew, drop, sweep, after_activities, after_activities-IsValid,
}

abbrev held_row : ℕ → ℕ → ℕ → Conversation
held_row i holder expires = record {
  id = i;
  contact_id = 5;
  state = human_assigned;
  ai_enabled = false;
  locked_by = some holder;
  lock_expires_at = some expires;
}

abbrev held_inbox : Inbox
held_inbox = record {
  conversations = held_row 1 7 90 ∷ held_row 2 8 60 ∷ held_row 3 7 300 ∷ [];
  contacts = [];
  users = 7 ∷ 8 ∷ [];
  tags = [];
  contact_tags = [];
  messages = [];
  audit = [];
  events = [];
  next_id = 10;
}

oldest_first : map (λ c. c.id) (expired_rows 100 held_inbox.conversations) ≡ 2 ∷ 1 ∷ []
unfolding expired_rows order_by_expiry insert_by_expiry limit
oldest_first = refl

swept :
    map (λ c. c.locked_by) (expire_stale_locks_task 100 held_inbox).1.conversations
    ≡ none ∷ none ∷ some 7 ∷ []
unfolding expired_rows order_by_expiry insert_by_expiry limit expire_stale_locks_task expire_each
    record_expiry clear_lock
swept = refl

held_keys : DistinctKeys held_inbox.conversations
held_keys = ((λ h. omega arith, (λ h. omega arith, tt)), ((λ h. omega arith, tt), (tt, tt)))

expire_stale_locks_task_lem_example :
    let (r, s') = expire_stale_locks_task 100 held_inbox in
    let n = length (expired_rows 100 held_inbox.conversations) in
    (r ≡ ok (record { scanned = n; released = n }))
    × (count (is_expired 80) s'.conversations
        ≡ count (is_expired 80) held_inbox.conversations - batch_limit)
    × DistinctKeys s'.conversations
expire_stale_locks_task_lem_example =
    expire_stale_locks_task_lem 80 100 held_inbox (omega arith) held_keys

after_ticks-is_expired_example :
    count (is_expired 80) (after_ticks (100 ∷ 130 ∷ []) held_inbox).conversations ≡ 0
after_ticks-is_expired_example =
    after_ticks-is_expired 80 (100 ∷ 130 ∷ []) held_inbox held_keys (omega arith, (omega arith, tt))

not_holder_example :
    (renew_lock 120 100 1 8 held_inbox ≡ (err conversation_locked, held_inbox))
    × ((drop_lock 1 8 none false held_inbox).1 ≡ held_inbox)
not_holder_example = not_holder 120 100 1 8 none held_inbox (held_row 1 7 90) refl (λ h. cc)

abbrev quiet_inbox : Inbox
quiet_inbox = record held_inbox { conversations = []; next_id = 1 }

nothing : {A : Type 0} {c : Conversation} → none ≡ some c → A
nothing h = cc

quiet-IsValid : IsValid quiet_inbox
quiet-IsValid = record { traced = λ i c h. nothing h; below = tt; audit_below = tt }

abbrev shift : List Activity
shift =
    request (inbound 5)
    ∷ request (assign_to 120 10 1 7 7 false)
    ∷ take 120 15 1 8 none
    ∷ renew 120 20 1 7
    ∷ sweep 200
    ∷ take 120 210 1 8 none
    ∷ drop 1 8 none false
    ∷ []

after_activities-IsValid_example : IsValid (after_activities shift quiet_inbox)
after_activities-IsValid_example = after_activities-IsValid shift quiet_inbox quiet-IsValid

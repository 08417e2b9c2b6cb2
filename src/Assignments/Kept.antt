-- ===== src/Assignments/Kept.antt =====
-- The lock methods and the sweep (backend/app/modules/assignments) keep the invariant of the
-- conversations' tables.
use engage_os.Base.{
  ℕ, ◌≡◌, refl, ◌∙◌, Bool, true, false, Option, none, some, List, [], ◌∷◌, ◌++◌, if◌then◌else◌,
}
use engage_os.Core.Action.{⊤, Action}
use engage_os.Conversations.StateMachine.{ConversationState, new}
use engage_os.Conversations.Store.{
  Conversation, conversation_model, Inbox, AuditRow, moved, bulk_updated, lock_changed, LockChange,
  ActorType, is_value, set_lock,
}
use engage_os.Conversations.Service.{append_audit}
use engage_os.Conversations.Service.Valid.{
  IsValid, IsTraced, IsAuditBelow, replay, replay_next, replay_row, replay-append,
}
use engage_os.Conversations.Service.Kept.{Preserves, update_where-IsValid, pure-IsValid, valid}
use engage_os.Conversations.Requests.{
  Request, run, run-IsValid, outcome, outcome-IsValid, ignore, ignore-IsValid,
}
use engage_os.Assignments.{
  take_lock, renew_found, renew_lock, release_lock_of, audit_release, release_held, drop_lock,
}
use engage_os.Assignments.Sweep.{
  same_holder, clear_lock, record_expiry, expire_each, expire_stale_locks_task,
}

-- An audit row on a lock says nothing of states.
replay-lock_changed :
    (i : ℕ) (rows : List AuditRow) (who : ActorType) (actor : Option ℕ) (j : ℕ)
    (change : LockChange) (o : Option ConversationState)
    → replay i o (rows ++ lock_changed who actor j change ∷ []) ≡ replay i o rows
replay-lock_changed i rows who actor j change o =
    replay-append i o rows (lock_changed who actor j change) ∙ same (replay i o rows)
  where
    same :
        (p : Option ConversationState)
        → replay_next (replay_row i (lock_changed who actor j change)) p ≡ p
    same none = refl
    same (some s) = refl

IsAuditBelow-lock_changed :
    (n : ℕ) (rows : List AuditRow) (who : ActorType) (actor : Option ℕ) (j : ℕ)
    (change : LockChange)
    → IsAuditBelow n rows
    → IsAuditBelow n (rows ++ lock_changed who actor j change ∷ [])
IsAuditBelow-lock_changed n [] who actor j change h = tt
IsAuditBelow-lock_changed n (moved w a m k x y z ∷ rows) who actor j change h =
    (h.0, IsAuditBelow-lock_changed n rows who actor j change h.1)
IsAuditBelow-lock_changed n (bulk_updated a ids k ∷ rows) who actor j change h =
    IsAuditBelow-lock_changed n rows who actor j change h
IsAuditBelow-lock_changed n (lock_changed w a k c ∷ rows) who actor j change h =
    IsAuditBelow-lock_changed n rows who actor j change h

lock_changed-IsValid :
    (who : ActorType) (actor : Option ℕ) (j : ℕ) (change : LockChange)
    → Preserves (append_audit (lock_changed who actor j change))
unfolding IsTraced
lock_changed-IsValid who actor j change s v = record {
  traced = λ i c h.
      let (trail, pair) = v.traced i c h in
      (replay-lock_changed i s.audit who actor j change (some new) ∙ trail, pair);
  below = v.below;
  audit_below = IsAuditBelow-lock_changed s.next_id s.audit who actor j change v.audit_below;
}

release_lock_of-IsValid : (i holder : ℕ) → Preserves (release_lock_of i holder)
unfolding release_lock_of
release_lock_of-IsValid i holder s v =
    update_where-IsValid i (λ c. is_value c.locked_by holder) (set_lock none none) s
      (λ c. (refl, refl, λ h. refl)) v

take_lock-IsValid :
    (ttl now i agent_id : ℕ) (actor_id : Option ℕ)
    → Preserves (take_lock ttl now i agent_id actor_id)
unfolding take_lock
take_lock-IsValid ttl now i agent_id actor_id = search (valid, lock_changed-IsValid) depth 9

renew_found-IsValid :
    (ttl now i agent_id : ℕ) (c : Conversation) → Preserves (renew_found ttl now i agent_id c)
unfolding renew_found
renew_found-IsValid ttl now i agent_id c = search valid

renew_lock-IsValid : (ttl now i agent_id : ℕ) → Preserves (renew_lock ttl now i agent_id)
unfolding renew_lock
renew_lock-IsValid ttl now i agent_id = search (valid, renew_found-IsValid)

if-IsValid :
    (b : Bool) {A : Type 0} (m k : Action Inbox A)
    → Preserves m
    → Preserves k
    → Preserves (if b then m else k)
if-IsValid true m k h h' = h
if-IsValid false m k h h' = h'

audit_release-IsValid :
    (i holder agent_id : ℕ) (actor_id : Option ℕ) (is_admin : Bool) (rows : ℕ)
    → Preserves (audit_release i holder agent_id actor_id is_admin rows)
unfolding audit_release
audit_release-IsValid i holder agent_id actor_id is_admin rows =
    search (valid, if-IsValid, lock_changed-IsValid)

release_held-IsValid :
    (i agent_id : ℕ) (actor_id : Option ℕ) (is_admin : Bool) (holder : Option ℕ)
    → Preserves (release_held i agent_id actor_id is_admin holder)
unfolding release_held
release_held-IsValid i agent_id actor_id is_admin none = pure-IsValid tt
release_held-IsValid i agent_id actor_id is_admin (some holder) =
    search (valid, release_lock_of-IsValid, audit_release-IsValid)

drop_lock-IsValid :
    (i agent_id : ℕ) (actor_id : Option ℕ) (is_admin : Bool)
    → Preserves (drop_lock i agent_id actor_id is_admin)
unfolding drop_lock
drop_lock-IsValid i agent_id actor_id is_admin = search (valid, release_held-IsValid)

clear_lock-IsValid : (row : Conversation) → Preserves (clear_lock row)
unfolding clear_lock
clear_lock-IsValid row s v =
    update_where-IsValid row.id (λ c. same_holder row.locked_by c.locked_by) (set_lock none none) s
      (λ c. (refl, refl, λ h. refl)) v

record_expiry-IsValid :
    (row : Conversation) (released rows : ℕ) → Preserves (record_expiry row released rows)
unfolding record_expiry
record_expiry-IsValid row released rows = search (valid, if-IsValid, lock_changed-IsValid)

expire_each-IsValid :
    (rows : List Conversation) (released : ℕ) → Preserves (expire_each rows released)
unfolding expire_each
expire_each-IsValid [] released = pure-IsValid released
expire_each-IsValid (row ∷ rows) released =
    search (valid, clear_lock-IsValid, record_expiry-IsValid, expire_each-IsValid rows)

expire_stale_locks_task-IsValid : (now : ℕ) → Preserves (expire_stale_locks_task now)
unfolding expire_stale_locks_task
expire_stale_locks_task-IsValid now = search (valid, expire_each-IsValid)

-- A request to the conversations' or the assignments' routes, or a tick of the sweep.
pub data Activity : Type 0 where
  request : Request → Activity
  take : ℕ → ℕ → ℕ → ℕ → Option ℕ → Activity
  renew : ℕ → ℕ → ℕ → ℕ → Activity
  drop : ℕ → ℕ → Option ℕ → Bool → Activity
  sweep : ℕ → Activity

unfoldable pub act : Activity → Action Inbox ⊤
act (request r) = run r
act (take ttl now i agent_id actor_id) = ignore (take_lock ttl now i agent_id actor_id)
act (renew ttl now i agent_id) = ignore (renew_lock ttl now i agent_id)
act (drop i agent_id actor_id is_admin) = drop_lock i agent_id actor_id is_admin
act (sweep now) = ignore (expire_stale_locks_task now)

-- Each is committed, or rolled back.
unfoldable pub after_activities : List Activity → Inbox → Inbox
after_activities [] s = s
after_activities (a ∷ rest) s = after_activities rest (outcome s (act a s))

act-IsValid : (a : Activity) → Preserves (act a)
unfolding act
act-IsValid (request r) = run-IsValid r
act-IsValid (take ttl now i agent_id actor_id) =
    ignore-IsValid _ (take_lock-IsValid ttl now i agent_id actor_id)
act-IsValid (renew ttl now i agent_id) = ignore-IsValid _ (renew_lock-IsValid ttl now i agent_id)
act-IsValid (drop i agent_id actor_id is_admin) = drop_lock-IsValid i agent_id actor_id is_admin
act-IsValid (sweep now) = ignore-IsValid _ (expire_stale_locks_task-IsValid now)

-- With locks taken, renewed, released and swept between the requests of the conversations' service
-- other than `bulk_update`, in any order: the audit trail of every conversation still leads to its state, and its two lock
-- columns are set together or not at all.
pub after_activities-IsValid :
    (rest : List Activity) (s : Inbox) → IsValid s → IsValid (after_activities rest s)
unfolding after_activities
after_activities-IsValid [] s v = v
after_activities-IsValid (a ∷ rest) s v =
    after_activities-IsValid rest (outcome s (act a s))
      (outcome-IsValid s (act a s) v (act-IsValid a s v))

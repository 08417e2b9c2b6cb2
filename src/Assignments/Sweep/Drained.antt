-- ===== src/Assignments/Sweep/Drained.antt =====
-- The sweep of backend/app/modules/assignments/tasks.py, tick by tick.
use engage_os.Base.{
  ℕ, ◌+◌, ◌-◌, ◌*◌, ◌≤◌, ◌≡◌, refl, ap, ◌∙◌, ◌≢◌, Bool, true, not, ◌&&◌, Option, none, some, List,
  [], ◌∷◌, ◌++◌, length, arith, All, ==_refl,
}
use engage_os.Core.Action.{Action, Result, ok, bind_to, pure, ◌>>=◌}
use engage_os.Core.Table.{pk, get, update, get-update_ne}
use engage_os.Core.Table.Count.{count, count-update, DistinctKeys, DistinctKeys-update, get-every}
use engage_os.Conversations.Store.{
  Conversation, conversation_model, Inbox, lock_changed, lock_expired, system, lock_expired_event,
  is_none, is_before, put, set_lock,
}
use engage_os.Assignments.Sweep.{
  batch_limit, is_expired, expired_rows, same_holder, clear_lock, record_expiry, expire_each,
  SweepCount, expire_stale_locks_task,
}
use engage_os.Assignments.Sweep.Order.{
  All-expired_rows, DistinctKeys-expired_rows, expired_rows-is_expired, count-expired_rows,
}

same_holder_self :
    (held : Option ℕ) (b : Bool) → (not (is_none held) && b) ≡ true → same_holder held held ≡ true
same_holder_self none b h = cc
same_holder_self (some a) b h = ==_refl a

-- The session after one selected row.
abbrev cleared : Conversation → Inbox → Inbox
cleared row s = record s {
  conversations = update row.id (set_lock none none) s.conversations;
  audit = s.audit ++ lock_changed system none row.id (lock_expired row.locked_by) ∷ [];
  events = s.events ++ lock_expired_event row.id row.locked_by ∷ [];
}

clear_lock-ok :
    (row : Conversation) (s : Inbox)
    → get row.id s.conversations ≡ some row
    → same_holder row.locked_by row.locked_by ≡ true
    → clear_lock row s ≡ (ok 1, put row.id (set_lock none none) s)
unfolding clear_lock
clear_lock-ok row s found held = rw (found, held) refl

clear_one :
    (row : Conversation) (released : ℕ) (s : Inbox)
    → get row.id s.conversations ≡ some row
    → same_holder row.locked_by row.locked_by ≡ true
    → (clear_lock row >>= record_expiry row released) s ≡ (ok (released + 1), cleared row s)
unfolding record_expiry
clear_one row released s found held =
    bind_to (clear_lock row) (record_expiry row released) s (clear_lock-ok row s found held)

-- The rows of a batch are still as they were selected.
abbrev IsCurrent : List Conversation → List Conversation → Type 0
IsCurrent cs rows = All (λ row. get (pk row) cs ≡ some row) rows

update-IsCurrent :
    (i : ℕ) (f : Conversation → Conversation) (cs rows : List Conversation)
    → ((y : Conversation) → pk (f y) ≡ pk y)
    → All (λ y. i ≢ pk y) rows
    → IsCurrent cs rows
    → IsCurrent (update i f cs) rows
update-IsCurrent i f cs [] keep d h = tt
update-IsCurrent i f cs (row ∷ rows) keep d h =
    (get-update_ne i (pk row) f cs keep d.0 ∙ h.0, update-IsCurrent i f cs rows keep d.1 h.1)

-- What a run of the loop comes to, for the locks that had expired before `t`.
record IsSwept (t : ℕ) (rows : List Conversation) (released : ℕ) (s s' : Inbox) (r : Result ℕ)
    : Type 0 where
  counted : r ≡ ok (released + length rows)
  fewer :
      count (is_expired t) s'.conversations + count (is_expired t) rows
      ≡ count (is_expired t) s.conversations
  keys : DistinctKeys s'.conversations

expire_each-IsSwept :
    (t now : ℕ) (rows : List Conversation) (released : ℕ) (s : Inbox)
    → IsCurrent s.conversations rows
    → DistinctKeys rows
    → All (λ row. is_expired now row ≡ true) rows
    → DistinctKeys s.conversations
    → let (r, s') = expire_each rows released s in IsSwept t rows released s s' r
unfolding expire_each
expire_each-IsSwept t now [] released s current d expired keys = record {
  counted = ap ok (omega arith);
  fewer = omega arith;
  keys = keys;
}
expire_each-IsSwept t now (row ∷ rows) released s current d expired keys =
    let next = cleared row s in
    let held = same_holder_self row.locked_by (is_before row.lock_expires_at now) expired.0 in
    let step =
      bind_to (clear_lock row >>= record_expiry row released) (expire_each rows) s
        (clear_one row released s current.0 held) in
    let rest =
      expire_each-IsSwept t now rows (released + 1) next
        (update-IsCurrent row.id (set_lock none none) s.conversations rows (λ y. refl) d.0
          current.1)
        d.1 expired.1
        (DistinctKeys-update row.id (set_lock none none) s.conversations (λ y. refl) keys) in
    let one =
      count-update (is_expired t) row.id (set_lock none none) s.conversations row current.0 in
    rw step (record {
      counted = rest.counted ∙ ap ok (omega arith);
      fewer = omega (arith, rest.fewer, one);
      keys = rest.keys;
    })

-- A sweep at or after `t` removes every lock that had expired before `t`, or a full batch of them,
-- and releases every row that it selected.
pub expire_stale_locks_task_lem :
    (t now : ℕ) (s : Inbox)
    → t ≤ now
    → DistinctKeys s.conversations
    → let (r, s') = expire_stale_locks_task now s in
      let n = length (expired_rows now s.conversations) in
      (r ≡ ok (record { scanned = n; released = n }))
      × (count (is_expired t) s'.conversations ≡ count (is_expired t) s.conversations - batch_limit)
      × DistinctKeys s'.conversations
unfolding expire_stale_locks_task
expire_stale_locks_task_lem t now s h keys =
    let cs = s.conversations in
    let rows = expired_rows now cs in
    let done =
      expire_each-IsSwept t now rows 0 s
        (All-expired_rows (λ row. get (pk row) cs ≡ some row) now cs (get-every cs keys))
        (DistinctKeys-expired_rows now cs keys) (expired_rows-is_expired now cs) keys in
    let report : ℕ → Action Inbox SweepCount =
      λ released. pure (record { scanned = length rows; released = released }) in
    let full =
      bind_to (expire_each rows 0) report s
        (ap (λ r. (r, (expire_each rows 0 s).1)) done.counted) in
    rw full (
      ap (λ n. ok (record { scanned = length rows; released = n })) (omega arith),
      omega (arith, done.fewer, count-expired_rows t now cs h),
      done.keys,
    )

-- The inbox after some ticks, at the given moments.
unfoldable pub after_ticks : List ℕ → Inbox → Inbox
after_ticks [] s = s
after_ticks (now ∷ ticks) s = after_ticks ticks (expire_stale_locks_task now s).1

-- However many locks have expired in the meantime: the locks that had expired before `t` go a batch
-- at each tick from `t` on, so that after as many ticks as they fill batches none of them is left.
pub after_ticks-is_expired :
    (t : ℕ) (ticks : List ℕ) (s : Inbox)
    → DistinctKeys s.conversations
    → All (λ now. t ≤ now) ticks
    → count (is_expired t) (after_ticks ticks s).conversations
      ≡ count (is_expired t) s.conversations - length ticks * batch_limit
unfolding after_ticks
after_ticks-is_expired t [] s keys h = omega arith
after_ticks-is_expired t (now ∷ ticks) s keys h =
    let (r, fewer, keys') = expire_stale_locks_task_lem t now s h.0 keys in
    omega (arith, fewer, after_ticks-is_expired t ticks (expire_stale_locks_task now s).1 keys' h.1)

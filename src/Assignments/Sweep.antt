-- ===== src/Assignments/Sweep.antt =====
-- backend/app/modules/assignments/tasks.py: `expire_stale_locks_task`, up to its commit. The clock is
-- a parameter. Between locks that expire at the same moment, the query fixes no order.
pub mod Order
pub mod Drained
use engage_os.Base.{
  ℕ, zero, suc, ◌+◌, ◌≡◌, Bool, true, false, not, ◌&&◌, Option, none, some, List, [], ◌∷◌, ◌==◌,
  leb, where_rows, length, if◌then◌else◌,
}
use engage_os.Core.Action.{⊤, Action, Result, ok, err, gets, pure, ◌>>=◌, ◌>>◌}
use engage_os.Core.Table.{get}
use engage_os.Conversations.Store.{
  Conversation, conversation_model, Inbox, AuditRow, lock_changed, lock_expired, ActorType, system,
  Event, lock_expired_event, is_none, is_before, is_value, update_where, set_lock,
}
use engage_os.Conversations.Service.{append_audit, emit}

-- `LOCK_EXPIRY_SWEEP_BATCH_LIMIT`
abbrev pub batch_limit : ℕ
batch_limit = 200

-- The WHERE clauses of the SELECT.
abbrev pub is_expired : ℕ → Conversation → Bool
is_expired now c = not (is_none c.locked_by) && is_before c.lock_expires_at now

-- ORDER BY lock_expires_at, which the selected rows all have.
abbrev pub expiry : Conversation → ℕ
expiry c = elim c.lock_expires_at [ none ↦ 0 | some e ↦ e ]

unfoldable pub insert_by_expiry : Conversation → List Conversation → List Conversation
insert_by_expiry c [] = c ∷ []
insert_by_expiry c (d ∷ ds) =
    if leb (expiry c) (expiry d) then c ∷ d ∷ ds else d ∷ insert_by_expiry c ds

unfoldable pub order_by_expiry : List Conversation → List Conversation
order_by_expiry [] = []
order_by_expiry (c ∷ cs) = insert_by_expiry c (order_by_expiry cs)

unfoldable pub limit : ℕ → List Conversation → List Conversation
limit zero cs = []
limit (suc n) [] = []
limit (suc n) (c ∷ cs) = c ∷ limit n cs

unfoldable pub expired_rows : ℕ → List Conversation → List Conversation
expired_rows now cs = limit batch_limit (order_by_expiry (where_rows (is_expired now) cs))

-- `locked_by == prev_holder` in SQL.
abbrev pub same_holder : Option ℕ → Option ℕ → Bool
same_holder none held = false
same_holder (some prev) held = is_value held prev

-- The UPDATE of one selected row.
unfoldable pub clear_lock : Conversation → Action Inbox ℕ
clear_lock row s =
    update_where row.id (λ c. same_holder row.locked_by c.locked_by) (set_lock none none)
      (get row.id s.conversations) s

unfoldable pub record_expiry : Conversation → ℕ → ℕ → Action Inbox ℕ
record_expiry row released rows =
    if rows == 0
    then pure released
    else (append_audit (lock_changed system none row.id (lock_expired row.locked_by))
        >> emit (lock_expired_event row.id row.locked_by))
      >> pure (released + 1)

unfoldable pub expire_each : List Conversation → ℕ → Action Inbox ℕ
expire_each [] released = pure released
expire_each (row ∷ rows) released =
    (clear_lock row >>= record_expiry row released) >>= expire_each rows

pub record SweepCount : Type 0 where
  pub scanned : ℕ
  pub released : ℕ

unfoldable pub expire_stale_locks_task : ℕ → Action Inbox SweepCount
expire_stale_locks_task now = do
  rows ← gets (λ (s : Inbox). expired_rows now s.conversations)
  released ← expire_each rows 0
  pure (record { scanned = length rows; released = released })

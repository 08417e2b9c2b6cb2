-- ===== src/Assignments.antt =====
-- backend/app/modules/assignments/service.py: the lock methods of `AssignmentService`, over the
-- tables of the conversations. `auto_assign` is left out: it picks an agent by the update times of
-- conversations, which the tables here do not hold.
pub mod Sweep
pub mod Held
pub mod Kept
mod Tests
use engage_os.Base.{ℕ, ◌≡◌, Bool, true, false, not, ◌&&◌, Option, none, some, ◌==◌, if◌then◌else◌}
use engage_os.Core.Exceptions.{Error, not_found, conversation_locked}
use engage_os.Core.Action.{⊤, Action, Result, ok, err, gets, raise_if, or_raise, pure, ◌>>=◌, ◌>>◌}
use engage_os.Core.Table.{get}
use engage_os.Conversations.Store.{
  Conversation, conversation_model, Inbox, AuditRow, lock_changed, locked, unlocked, ActorType,
  agent, admin, is_value, update_where, set_lock, acquire_lock,
}
use engage_os.Conversations.Service.{append_audit}

-- `LOCK_TIMEOUT_SECONDS` is the parameter `ttl`, as for the conversations. The requests carry
-- `actor_id or agent_id` in the source.
abbrev pub or_agent : Option ℕ → ℕ → ℕ
or_agent none agent_id = agent_id
or_agent (some a) agent_id = a

-- `AssignmentService.acquire_lock`
unfoldable pub take_lock : ℕ → ℕ → ℕ → ℕ → Option ℕ → Action Inbox Conversation
take_lock ttl now i agent_id actor_id = do
  found ← gets (λ (s : Inbox). get i s.conversations)
  c ← or_raise found not_found
  rows ← acquire_lock now i agent_id ttl
  raise_if (rows == 0) conversation_locked
  append_audit (lock_changed agent (some (or_agent actor_id agent_id)) i (locked agent_id))
  after ← gets (λ (s : Inbox). get i s.conversations)
  or_raise after not_found

unfoldable pub renew_found : ℕ → ℕ → ℕ → ℕ → Conversation → Action Inbox Conversation
renew_found ttl now i agent_id c = do
  raise_if (not (is_value c.locked_by agent_id)) conversation_locked
  rows ← acquire_lock now i agent_id ttl
  raise_if (rows == 0) conversation_locked
  after ← gets (λ (s : Inbox). get i s.conversations)
  or_raise after not_found

-- `renew_lock`
unfoldable pub renew_lock : ℕ → ℕ → ℕ → ℕ → Action Inbox Conversation
renew_lock ttl now i agent_id = do
  found ← gets (λ (s : Inbox). get i s.conversations)
  c ← or_raise found not_found
  renew_found ttl now i agent_id c

-- `ConversationRepository.release_lock` with an agent: only a lock that the agent holds.
unfoldable pub release_lock_of : ℕ → ℕ → Action Inbox ℕ
release_lock_of i agent_id s =
    update_where i (λ c. is_value c.locked_by agent_id) (set_lock none none) (get i s.conversations)
      s

abbrev pub releaser : Bool → ActorType
releaser is_admin = if is_admin then admin else agent

unfoldable pub audit_release : ℕ → ℕ → ℕ → Option ℕ → Bool → ℕ → Action Inbox ⊤
audit_release i holder agent_id actor_id is_admin rows =
    if rows == 0
    then pure tt
    else append_audit
        (lock_changed (releaser is_admin) (some (or_agent actor_id agent_id)) i (unlocked holder))

unfoldable pub release_held : ℕ → ℕ → Option ℕ → Bool → Option ℕ → Action Inbox ⊤
release_held i agent_id actor_id is_admin none = pure tt
release_held i agent_id actor_id is_admin (some holder) = do
  raise_if (not is_admin && not (holder == agent_id)) conversation_locked
  rows ← release_lock_of i holder
  audit_release i holder agent_id actor_id is_admin rows

-- `AssignmentService.release_lock`
unfoldable pub drop_lock : ℕ → ℕ → Option ℕ → Bool → Action Inbox ⊤
drop_lock i agent_id actor_id admin_override = do
  found ← gets (λ (s : Inbox). get i s.conversations)
  c ← or_raise found not_found
  release_held i agent_id actor_id admin_override c.locked_by

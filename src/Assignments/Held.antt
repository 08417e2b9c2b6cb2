-- ===== src/Assignments/Held.antt =====
-- The lock methods of backend/app/modules/assignments/service.py, for an agent who holds no lock.
use engage_os.Base.{ℕ, ◌≡◌, refl, ap, ◌≢◌, false, Option, none, some, ==-eq_false}
use engage_os.Core.Exceptions.{conversation_locked}
use engage_os.Core.Action.{err}
use engage_os.Core.Table.{get}
use engage_os.Conversations.Store.{Conversation, conversation_model, Inbox, is_value}
use engage_os.Assignments.{renew_found, renew_lock, release_held, drop_lock}

not_value : (o : Option ℕ) (a : ℕ) → o ≢ some a → is_value o a ≡ false
not_value none a h = refl
not_value (some b) a h = ==-eq_false b a (λ e. h (ap some e))

release_held-none :
    (i agent_id : ℕ) (actor_id held : Option ℕ) (s : Inbox)
    → held ≢ some agent_id
    → (release_held i agent_id actor_id false held s).1 ≡ s
unfolding release_held
release_held-none i agent_id actor_id none s h = refl
release_held-none i agent_id actor_id (some b) s h =
    rw (==-eq_false b agent_id (λ e. h (ap some e))) refl

-- An agent who does not hold the lock of a conversation cannot renew it, and cannot release it
-- without the admin's override: the renewal raises, and neither call changes anything.
pub not_holder :
    (ttl now i agent_id : ℕ) (actor_id : Option ℕ) (s : Inbox) (c : Conversation)
    → get i s.conversations ≡ some c
    → c.locked_by ≢ some agent_id
    → (renew_lock ttl now i agent_id s ≡ (err conversation_locked, s))
      × ((drop_lock i agent_id actor_id false s).1 ≡ s)
unfolding renew_lock renew_found drop_lock
not_holder ttl now i agent_id actor_id s c found h = (
  rw (found, not_value c.locked_by agent_id h) refl,
  rw found (release_held-none i agent_id actor_id c.locked_by s h),
)

-- ===== src/Conversations/Locking.antt =====
-- The conversation lock (`acquire_lock` of backend/app/modules/conversations/repository.py) between
-- two agents.
use engage_os.Base.{
  ℕ, ◌+◌, ◌≤◌, ◌≡◌, refl, ◌≢◌, true, false, some, ltb, arith, ==-eq_false, ==_refl,
}
use engage_os.Core.Action.{ok}
use engage_os.Core.Table.{get, get-update_self}
use engage_os.Conversations.Store.{
  Conversation, conversation_model, Inbox, put, set_lock, is_free, acquire_lock,
}

module _ (now i agent_id ttl : ℕ) (s : Inbox) {c : Conversation} where
  acquire_lock_free :
      get i s.conversations ≡ some c
      → is_free now agent_id c ≡ true
      → acquire_lock now i agent_id ttl s
        ≡ (ok 1, put i (set_lock (some agent_id) (some (now + ttl))) s)
  unfolding acquire_lock
  acquire_lock_free found free = rw (found, free) refl

  acquire_lock_busy :
      get i s.conversations ≡ some c
      → is_free now agent_id c ≡ false
      → acquire_lock now i agent_id ttl s ≡ (ok 0, s)
  unfolding acquire_lock
  acquire_lock_busy found busy = rw (found, busy) refl

not_before : (e t : ℕ) → t ≤ e → ltb e t ≡ false
not_before e t h = ground arith

-- The row of a lock that was just taken.
abbrev locked_row : ℕ → ℕ → Conversation → Conversation
locked_row holder expiry = set_lock (some holder) (some expiry)

busy_for :
    (holder other expiry t : ℕ) (c : Conversation)
    → holder ≢ other
    → t ≤ expiry
    → is_free t other (locked_row holder expiry c) ≡ false
busy_for holder other expiry t c distinct early =
    rw (not_before expiry t early, ==-eq_false holder other distinct) refl

free_for :
    (holder expiry t : ℕ) (c : Conversation) → is_free t holder (locked_row holder expiry c) ≡ true
free_for holder expiry t c = ground (arith, ==_refl holder)

-- An agent who takes a free lock has it alone until it expires: up to that moment another agent's
-- attempt updates no row and changes nothing, while the holder's own renewal goes through.
pub acquire_lock-acquire_lock :
    (now later i a b ttl : ℕ) (s : Inbox) (c : Conversation)
    → get i s.conversations ≡ some c
    → is_free now a c ≡ true
    → a ≢ b
    → later ≤ now + ttl
    → let (r, s') = acquire_lock now i a ttl s in
      (r ≡ ok 1)
      × (acquire_lock later i b ttl s' ≡ (ok 0, s'))
      × ((acquire_lock later i a ttl s').0 ≡ ok 1)
acquire_lock-acquire_lock now later i a b ttl s c found free distinct early =
    let taken = put i (set_lock (some a) (some (now + ttl))) s in
    let row =
      get-update_self i (set_lock (some a) (some (now + ttl))) s.conversations (λ y. refl) found in
    rw
      (
        acquire_lock_free now i a ttl s found free,
        acquire_lock_busy later i b ttl taken row (busy_for a b (now + ttl) later c distinct early),
        acquire_lock_free later i a ttl taken row (free_for a (now + ttl) later c),
      )
      (refl, refl, refl)

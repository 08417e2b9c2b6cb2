-- ===== src/Conversations/Service/Outcomes.antt =====
-- What single methods of service.py do to the conversation they are called on.
use engage_os.Base.{ℕ, ◌≡◌, refl, true, false, Option, some, inl, inr}
use engage_os.Core.Exceptions.{Error, permission_error, concurrent_modification}
use engage_os.Core.Action.{⊤, Result, ok, err, Result-cases}
use engage_os.Core.Table.{get, get-update_self}
use engage_os.Conversations.StateMachine.{
  ConversationState, human_assigned, same_state, assert_transition,
}
use engage_os.Conversations.Store.{Conversation, conversation_model, ActorType, Inbox, set_state}
use engage_os.Conversations.Service.{
  transition, assert_actor_holds_lock, is_held_by_other, pause_ai, assign, assign_found, close,
}
use engage_os.Conversations.Service.Valid.{moved_to, transition_stale, transition_current}

-- Two transactions that both saw the conversation in the same state, the first of which moves it to
-- another state: the first succeeds, and the other's transition then raises a concurrent modification
-- and writes nothing. (A transition to the same state, as `close` allows, keeps no other one out.)
pub transition-transition :
    (i : ℕ) (s t u : ConversationState) (who who' : ActorType) (a a' b b' : Option ℕ)
    (inbox : Inbox) (c : Conversation)
    → get i inbox.conversations ≡ some c
    → same_state c.state s ≡ true
    → same_state t s ≡ false
    → let (r, inbox') = transition i s t who a b inbox in
      (r ≡ ok tt) × (transition i s u who' a' b' inbox' ≡ (err concurrent_modification, inbox'))
transition-transition i s t u who who' a a' b b' inbox c found here elsewhere =
    rw (transition_current i s t who a b inbox found here) (
      refl,
      transition_stale i s u who' a' b' (moved_to i s t who a b inbox)
          (get-update_self i (set_state t) inbox.conversations (λ y. refl) found) elsewhere,
    )

lock_refused :
    (now actor_id : ℕ) (c : Conversation)
    → is_held_by_other now actor_id c.locked_by c.lock_expires_at ≡ true
    → assert_actor_holds_lock now c actor_id false ≡ err permission_error
unfolding assert_actor_holds_lock
lock_refused now actor_id c h = rw h refl

-- The error of a check, or the one that follows it.
abbrev pub first_error : Result ⊤ → Error → Result ⊤
first_error (ok a) e = err e
first_error (err x) e = err x

module _ (now i actor_id : ℕ) (s : Inbox) (c : Conversation) where
  pause_locked :
      get i s.conversations ≡ some c
      → is_held_by_other now actor_id c.locked_by c.lock_expires_at ≡ true
      → pause_ai now i actor_id false s ≡ (err permission_error, s)
  unfolding pause_ai
  pause_locked found held = rw (found, lock_refused now actor_id c held) refl

  close_locked :
      get i s.conversations ≡ some c
      → is_held_by_other now actor_id c.locked_by c.lock_expires_at ≡ true
      → close now i actor_id false s ≡ (err permission_error, s)
  unfolding close
  close_locked found held = rw (found, lock_refused now actor_id c held) refl

  assign_refused :
      (ttl agent_id : ℕ) (e : Error)
      → get i s.conversations ≡ some c
      → assert_transition c.state human_assigned ≡ err e
      → assign ttl now i agent_id actor_id false s ≡ (err e, s)
  unfolding assign assign_found
  assign_refused ttl agent_id e found h = rw (found, h) refl

  assign_locked :
      (ttl agent_id : ℕ)
      → get i s.conversations ≡ some c
      → assert_transition c.state human_assigned ≡ ok tt
      → is_held_by_other now actor_id c.locked_by c.lock_expires_at ≡ true
      → assign ttl now i agent_id actor_id false s ≡ (err permission_error, s)
  unfolding assign assign_found
  assign_locked ttl agent_id found h held = rw (found, h, lock_refused now actor_id c held) refl

-- An agent who is not an admin gets nowhere with a conversation under somebody else's active lock:
-- pausing, closing and assigning it raise a permission error (assigning, the error of the arc first,
-- if that is illegal) and write nothing.
pub locked_out :
    (ttl now i agent_id actor_id : ℕ) (s : Inbox) (c : Conversation)
    → get i s.conversations ≡ some c
    → is_held_by_other now actor_id c.locked_by c.lock_expires_at ≡ true
    → (pause_ai now i actor_id false s ≡ (err permission_error, s))
      × (close now i actor_id false s ≡ (err permission_error, s))
      × (assign ttl now i agent_id actor_id false s
          ≡ (first_error (assert_transition c.state human_assigned) permission_error, s))
locked_out ttl now i agent_id actor_id s c found held = (
  pause_locked now i actor_id s c found held,
  close_locked now i actor_id s c found held,
  elim (Result-cases (assert_transition c.state human_assigned)) [
    | inl (a, h) ↦ rw h (assign_locked now i actor_id s c ttl agent_id found h held)
    | inr (e, h) ↦ rw h (assign_refused now i actor_id s c ttl agent_id e found h)
  ],
)

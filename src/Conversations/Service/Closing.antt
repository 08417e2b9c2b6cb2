-- ===== src/Conversations/Service/Closing.antt =====
-- `close` of service.py: the state, the lock and the audit trail.
use engage_os.Base.{ℕ, ◌≡◌, refl, ap, Bool, true, Option, none, some, [], ◌∷◌, ◌++◌, ==_refl}
use engage_os.Core.Action.{ok, pure, bind_to}
use engage_os.Core.Table.{get, get-update_self}
use engage_os.Conversations.StateMachine.{
  ConversationState, closed, same_state, code_of, transition_event,
}
use engage_os.Conversations.Store.{
  Conversation, conversation_model, ActorType, agent, moved, Inbox, put, set_state, set_lock,
  release_lock,
}
use engage_os.Conversations.Service.{
  transition, action_name, assert_actor_holds_lock, close, release_if_held,
}
use engage_os.Conversations.Service.Valid.{moved_to, transition_current}

-- The session after a release, and the row in it.
record IsReleased (i : ℕ) (s : Inbox) (c : Conversation) (held : Option ℕ) : Type 0 where
  s' : Inbox
  row : Conversation
  run : release_if_held i held s ≡ (ok tt, s')
  found : get i s'.conversations ≡ some row
  same_state_as : row.state ≡ c.state
  unlocked : row.locked_by ≡ none
  same_audit : s'.audit ≡ s.audit

pub release_lock_found :
    (i : ℕ) (s : Inbox) (c : Conversation)
    → get i s.conversations ≡ some c
    → release_lock i s ≡ (ok 1, put i (set_lock none none) s)
unfolding release_lock
release_lock_found i s c found = rw found refl

release_if_held_found :
    (i : ℕ) (s : Inbox) (c : Conversation) (held : Option ℕ)
    → get i s.conversations ≡ some c
    → c.locked_by ≡ held
    → IsReleased i s c held
release_if_held_found i s c none found h = record {
  s' = s;
  row = c;
  run = refl;
  found = found;
  same_state_as = refl;
  unlocked = h;
  same_audit = refl;
}
release_if_held_found i s c (some holder) found h = record {
  s' = put i (set_lock none none) s;
  row = set_lock none none c;
  run = bind_to (release_lock i) (λ rows. pure tt) s (release_lock_found i s c found);
  found = get-update_self i (set_lock none none) s.conversations (λ y. refl) found;
  same_state_as = refl;
  unlocked = refl;
  same_audit = refl;
}

close_free :
    (now i actor_id : ℕ) (is_admin : Bool) (s s' : Inbox) (c : Conversation)
    → get i s.conversations ≡ some c
    → assert_actor_holds_lock now c actor_id is_admin ≡ ok tt
    → release_if_held i c.locked_by s ≡ (ok tt, s')
    → close now i actor_id is_admin s ≡ transition i c.state closed agent (some actor_id) none s'
unfolding close
close_free now i actor_id is_admin s s' c found free released =
    rw (found, free)
      (bind_to (release_if_held i c.locked_by)
        (λ a. transition i c.state closed agent (some actor_id) none) s released)

pub moved_row :
    (i : ℕ) (s t : ConversationState) (who : ActorType) (a b : Option ℕ) (inbox : Inbox)
    (d : Conversation)
    → get i inbox.conversations ≡ some d
    → get i (moved_to i s t who a b inbox).conversations ≡ some (set_state t d)
moved_row i s t who a b inbox d found =
    get-update_self i (set_state t) inbox.conversations (λ y. refl) found

pub same_state_refl : (s : ConversationState) → same_state s s ≡ true
unfolding same_state
same_state_refl s = ==_refl (code_of s)

pub same_state_of_eq : {s t : ConversationState} → s ≡ t → same_state s t ≡ true
same_state_of_eq {s} {t} h = rw h (same_state_refl t)

-- The row that an action leaves for a conversation.
abbrev pub HasRow : ℕ → (Conversation → Type 0) → Inbox → Type 0
HasRow i P s = (d : Conversation) × (get i s.conversations ≡ some d) × P d

-- Whoever passes the lock check closes the conversation, in whatever state it is: afterwards it is
-- closed and unlocked, and one row has been added to the audit trail.
pub close-HasRow :
    (now i actor_id : ℕ) (is_admin : Bool) (s : Inbox) (c : Conversation)
    → get i s.conversations ≡ some c
    → assert_actor_holds_lock now c actor_id is_admin ≡ ok tt
    → let (r, s') = close now i actor_id is_admin s in
      (r ≡ ok tt)
      × HasRow i (λ d. (d.state ≡ closed) × (d.locked_by ≡ none)) s'
      × (s'.audit
          ≡ s.audit
            ++ moved agent
                (some actor_id)
                (action_name (transition_event c.state closed) c.state closed)
                i
                c.state
                closed
                none
              ∷ [])
close-HasRow now i actor_id is_admin s c found free =
    let rel = release_if_held_found i s c c.locked_by found refl in
    rw
      (
        close_free now i actor_id is_admin s rel.s' c found free rel.run,
        transition_current i c.state closed agent (some actor_id) none rel.s' rel.found
            (same_state_of_eq rel.same_state_as),
      )
      (
        refl,
        (
          set_state closed rel.row,
          moved_row i c.state closed agent (some actor_id) none rel.s' rel.row rel.found,
          (refl, rel.unlocked),
        ),
        ap
            (λ rows.
              rows
              ++ moved agent (some actor_id)
                  (action_name (transition_event c.state closed) c.state closed) i c.state closed
                  none
                ∷ [])
            rel.same_audit,
      )

-- ===== src/Conversations/Service/Forcing.antt =====
-- `force_transition` of service.py, on every arc.
use engage_os.Base.{
  ℕ, ◌≡◌, ◌≢◌, refl, ◌∙◌, ◌⊎◌, Bool, true, false, Option, none, some, inl, inr, if◌then◌else◌,
}
use engage_os.Core.Exceptions.{Error}
use engage_os.Core.Action.{⊤, Result, ok, err, pure, ◌>>◌, bind_to, Result-cases}
use engage_os.Core.Table.{get, get-update_self}
use engage_os.Conversations.StateMachine.{
  ConversationState, same_state, allowed_transitions, can_transition, assert_transition,
}
use engage_os.Conversations.Store.{
  Conversation, conversation_model, admin, Inbox, put, set_state, set_lock, release_lock,
}
use engage_os.Conversations.Service.{
  transition, release_if, enable_if, enable_ai, is_leaving, is_resuming, force_transition,
  force_transition_found,
}
use engage_os.Conversations.Service.Valid.{moved_to, transition_current}
use engage_os.Conversations.Service.Closing.{
  HasRow, moved_row, same_state_of_eq, release_lock_found,
}

release_if_found :
    (b : Bool) (i : ℕ) (s : Inbox) (c : Conversation)
    → get i s.conversations ≡ some c
    → release_if b i s ≡ (ok tt, if b then put i (set_lock none none) s else s)
release_if_found false i s c found = refl
release_if_found true i s c found =
    bind_to (release_lock i) (λ rows. pure tt) s (release_lock_found i s c found)

-- The row that is left, by whether its lock was released.
abbrev unlocked_if : Bool → Conversation → Conversation
unlocked_if b c = if b then set_lock none none c else c

released_row :
    (b : Bool) (i : ℕ) (s : Inbox) (c : Conversation)
    → get i s.conversations ≡ some c
    → get i (if b then put i (set_lock none none) s else s).conversations ≡ some (unlocked_if b c)
released_row false i s c found = found
released_row true i s c found =
    get-update_self i (set_lock none none) s.conversations (λ y. refl) found

state-unlocked_if : (b : Bool) (c : Conversation) → (unlocked_if b c).state ≡ c.state
state-unlocked_if false c = refl
state-unlocked_if true c = refl

-- Resuming the AI keeps the state and the lock columns.
enabled_row :
    (b : Bool) (i : ℕ) (s : Inbox) (d : Conversation)
    → get i s.conversations ≡ some d
    → ((enable_if b i s).0 ≡ ok tt)
      × HasRow i (λ e. (e.state ≡ d.state) × (e.locked_by ≡ d.locked_by)) (enable_if b i s).1
enabled_row false i s d found = (refl, (d, found, (refl, refl)))
enabled_row true i s d found = (
  refl,
  (enable_ai d, get-update_self i enable_ai s.conversations (λ y. refl) found, (refl, refl)),
)

module _ (i : ℕ) (target : ConversationState) (actor_id : ℕ) (s : Inbox) (c : Conversation) where
  force_refused :
      (e : Error)
      → get i s.conversations ≡ some c
      → assert_transition c.state target ≡ err e
      → force_transition i target actor_id s ≡ (err e, s)
  unfolding force_transition force_transition_found
  force_refused e found h = rw (found, h) refl

  -- The session before the AI is enabled.
  abbrev forced : Inbox
  forced =
      moved_to i c.state target admin (some actor_id) none
        (if is_leaving c.state target then put i (set_lock none none) s else s)

  forced_row :
      get i s.conversations ≡ some c
      → get i forced.conversations
        ≡ some (set_state target (unlocked_if (is_leaving c.state target) c))
  forced_row found =
      moved_row i c.state target admin (some actor_id) none
        (if is_leaving c.state target then put i (set_lock none none) s else s)
        (unlocked_if (is_leaving c.state target) c)
        (released_row (is_leaving c.state target) i s c found)

  force_tail :
      get i s.conversations ≡ some c
      → (release_if (is_leaving c.state target) i
            >> (transition i c.state target admin (some actor_id) none
                >> enable_if (is_resuming c.state target) i))
          s
        ≡ enable_if (is_resuming c.state target) i forced
  force_tail found =
      let b = is_leaving c.state target in
      let s' = if b then put i (set_lock none none) s else s in
      bind_to (release_if b i)
        (λ x.
          transition i c.state target admin (some actor_id) none
          >> enable_if (is_resuming c.state target) i)
        s (release_if_found b i s c found)
      ∙ bind_to (transition i c.state target admin (some actor_id) none)
          (λ x. enable_if (is_resuming c.state target) i) s'
          (transition_current i c.state target admin (some actor_id) none s'
            (released_row b i s c found) (same_state_of_eq (state-unlocked_if b c)))

  force_legal :
      get i s.conversations ≡ some c
      → assert_transition c.state target ≡ ok tt
      → force_transition i target actor_id s ≡ enable_if (is_resuming c.state target) i forced
  unfolding force_transition force_transition_found
  force_legal found h = rw (found, h) (force_tail found)

-- The conversation leaves the hands of an agent.
abbrev pub LeavesAgent : ConversationState → ConversationState → Type 0
LeavesAgent from to =
    (from ≡ ConversationState.human_assigned) × (to ≢ ConversationState.human_assigned)

not_to_new : assert_transition ConversationState.human_assigned ConversationState.new ≡ ok tt → ⊥
unfolding assert_transition same_state can_transition allowed_transitions
not_to_new h = cc

leaving_lem :
    (from to : ConversationState)
    → assert_transition from to ≡ ok tt
    → ((is_leaving from to ≡ true) × LeavesAgent from to)
      ⊎ ((is_leaving from to ≡ false) × ¬ LeavesAgent from to)
unfolding same_state
leaving_lem ConversationState.new to h = inr (refl, λ l. human_only l.0)
  where
    human_only : ConversationState.new ≡ ConversationState.human_assigned → ⊥
    human_only e = cc
leaving_lem ConversationState.ai_active to h = inr (refl, λ l. human_only l.0)
  where
    human_only : ConversationState.ai_active ≡ ConversationState.human_assigned → ⊥
    human_only e = cc
leaving_lem ConversationState.awaiting_approval to h = inr (refl, λ l. human_only l.0)
  where
    human_only : ConversationState.awaiting_approval ≡ ConversationState.human_assigned → ⊥
    human_only e = cc
leaving_lem ConversationState.ai_paused to h = inr (refl, λ l. human_only l.0)
  where
    human_only : ConversationState.ai_paused ≡ ConversationState.human_assigned → ⊥
    human_only e = cc
leaving_lem ConversationState.closed to h = inr (refl, λ l. human_only l.0)
  where
    human_only : ConversationState.closed ≡ ConversationState.human_assigned → ⊥
    human_only e = cc
leaving_lem ConversationState.human_assigned ConversationState.new h = absurd (not_to_new h)
leaving_lem ConversationState.human_assigned ConversationState.human_assigned h =
    inr (refl, λ l. l.1 refl)
leaving_lem ConversationState.human_assigned ConversationState.ai_active h =
    inl (refl, (refl, λ e. cc))
leaving_lem ConversationState.human_assigned ConversationState.awaiting_approval h =
    inl (refl, (refl, λ e. cc))
leaving_lem ConversationState.human_assigned ConversationState.ai_paused h =
    inl (refl, (refl, λ e. cc))
leaving_lem ConversationState.human_assigned ConversationState.closed h =
    inl (refl, (refl, λ e. cc))

locked_after :
    (b : Bool) (c : Conversation) → (unlocked_if b c).locked_by ≡ (if b then none else c.locked_by)
locked_after false c = refl
locked_after true c = refl

lock_lem :
    (c : Conversation) (target : ConversationState) {l : Option ℕ}
    → assert_transition c.state target ≡ ok tt
    → l ≡ (if is_leaving c.state target then none else c.locked_by)
    → (LeavesAgent c.state target → l ≡ none) × (¬ LeavesAgent c.state target → l ≡ c.locked_by)
lock_lem c target h e = elim (leaving_lem c.state target h) [
  | inl (b, leaves) ↦ (λ k. e ∙ rw b refl, λ k. absurd (k leaves))
  | inr (b, stays) ↦ (λ k. absurd (stays k), λ k. e ∙ rw b refl)
]

-- What forcing comes to, by the verdict on the arc.
abbrev pub ForceOutcome :
    ℕ → ConversationState → Inbox → Conversation → Result ⊤ → Result ⊤ × Inbox → Type 0
ForceOutcome i target s c (err e) p = p ≡ (err e, s)
ForceOutcome i target s c (ok a) (r, s') =
    (r ≡ ok tt)
    × HasRow i
        (λ d.
          (d.state ≡ target)
          × (LeavesAgent c.state target → d.locked_by ≡ none)
          × (¬ LeavesAgent c.state target → d.locked_by ≡ c.locked_by))
        s'

-- Forcing a conversation along an illegal arc raises that arc's error and writes nothing; along a
-- legal one it always succeeds, the conversation is then in the target state, and its lock is
-- released if it goes from human_assigned to another state, and kept otherwise.
pub force_transition-ForceOutcome :
    (i : ℕ) (target : ConversationState) (actor_id : ℕ) (s : Inbox) (c : Conversation)
    → get i s.conversations ≡ some c
    → ForceOutcome i target s c
        (assert_transition c.state target)
        (force_transition i target actor_id s)
force_transition-ForceOutcome i target actor_id s c found =
    elim (Result-cases (assert_transition c.state target)) [
      | inl (a, h) ↦
          let b = is_leaving c.state target in
          let (done, (d, row, (in_state, lock))) =
            enabled_row (is_resuming c.state target) i (forced i target actor_id s c)
              (set_state target (unlocked_if b c)) (forced_row i target actor_id s c found) in
          rw (h, force_legal i target actor_id s c found h)
            (
              done,
              (
                d,
                row,
                (
                  in_state,
                  (lock_lem c target h (lock ∙ locked_after b c)).0,
                  (lock_lem c target h (lock ∙ locked_after b c)).1,
                ),
              ),
            )
      | inr (e, h) ↦ rw h (force_refused i target actor_id s c e found h)
    ]

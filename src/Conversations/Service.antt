-- ===== src/Conversations/Service.antt =====
-- backend/app/modules/conversations/service.py: `ConversationService`, but for `bulk_update`. The
-- clock is read once in a call (`now`); the role is whether it is "admin". The task that refreshes
-- the client's memory after a resume is left out.
pub mod Valid
pub mod Kept
pub mod Outcomes
pub mod Closing
pub mod Forcing
pub mod Approval
pub mod Inbound
use engage_os.Base.{
  ℕ, ◌≡◌, Bool, true, false, not, Option, none, some, List, [], ◌∷◌, ◌++◌, ◌&&◌, ltb, ◌==◌,
  if◌then◌else◌,
}
use engage_os.Core.Exceptions.{
  Error, not_found, permission_error, state_transition_error, concurrent_modification,
}
use engage_os.Core.Action.{
  ⊤, Result, ok, err, Action, gets, or_raise, raise_if, lift, modify, pure, ◌>>=◌, ◌>>◌,
}
use engage_os.Core.Table.{get, update}
use engage_os.Conversations.StateMachine.{
  ConversationState, EventName, same_state, assert_transition, transition_event,
}
use engage_os.Conversations.Store.{
  Conversation, conversation_model, Contact, contact_model, DeliveryStatus, Message, ActorType,
  agent, system, admin, ai, queued, ActionName, listed, arc, AuditRow, moved, Event, arc_event,
  first_activation, Inbox, put, set_state, update_state, acquire_lock, release_lock,
  create_for_contact, get_latest_draft_outbound, update_delivery_status,
}

-- The conversation has an active lock of somebody else.
abbrev pub is_active_at : ℕ → Option ℕ → Bool
is_active_at now none = false
is_active_at now (some e) = ltb now e

abbrev pub is_held_by_other : ℕ → ℕ → Option ℕ → Option ℕ → Bool
is_held_by_other now actor_id none e = false
is_held_by_other now actor_id (some h) e = is_active_at now e && not (h == actor_id)

-- `_assert_actor_holds_lock`
unfoldable pub assert_actor_holds_lock : ℕ → Conversation → ℕ → Bool → Result ⊤
assert_actor_holds_lock now c actor_id is_admin =
    if is_admin
    then ok tt
    else if is_held_by_other now actor_id c.locked_by c.lock_expires_at
    then err permission_error
    else ok tt

-- The owner of a thread: `getattr(contact, "assigned_agent_id", None) if contact else None`.
abbrev pub owner_of : Option Contact → Option ℕ
owner_of none = none
owner_of (some c) = c.assigned_agent_id

abbrev pub is_other : Option ℕ → ℕ → Bool
is_other none a = false
is_other (some o) a = not (o == a)

-- `_assert_can_act_on_awaiting`
unfoldable pub assert_can_act_on_awaiting : List Contact → Conversation → ℕ → Bool → Result ⊤
assert_can_act_on_awaiting contacts c actor_id is_admin =
    if is_admin
    then ok tt
    else if is_other (owner_of (get c.contact_id contacts)) actor_id
    then err permission_error
    else ok tt

abbrev pub action_name : Option EventName → ConversationState → ConversationState → ActionName
action_name none s t = arc s t
action_name (some e) s t = listed e

abbrev pub event_name : Option EventName → EventName
event_name none = EventName.transitioned
event_name (some e) = e

abbrev pub append_audit : AuditRow → Action Inbox ⊤
append_audit row = modify (λ s. record s { audit = s.audit ++ row ∷ [] })

abbrev pub emit : Event → Action Inbox ⊤
emit e = modify (λ s. record s { events = s.events ++ e ∷ [] })

-- `_transition` once the row has been updated: nothing more than an error if it was not there in the
-- expected state.
abbrev pub record_move :
    ℕ → ConversationState → ConversationState → ActorType → Option ℕ → Option ℕ → ℕ → Action Inbox ⊤
record_move i from_state to_state actor_type actor_id assigned rows_affected = do
  raise_if (rows_affected == 0) concurrent_modification
  append_audit (
      moved actor_type actor_id
        (action_name (transition_event from_state to_state) from_state to_state) i from_state
        to_state assigned)
  emit (arc_event (event_name (transition_event from_state to_state)) i from_state to_state)

-- `_transition`
unfoldable pub transition :
    ℕ → ConversationState → ConversationState → ActorType → Option ℕ → Option ℕ → Action Inbox ⊤
transition i from_state to_state actor_type actor_id assigned =
    update_state i from_state to_state
    >>= record_move i from_state to_state actor_type actor_id assigned

-- The object that is returned has been updated along with its row.
unfoldable pub handle_inbound_message : ℕ → Action Inbox Conversation
handle_inbound_message contact_id = do
  c ← create_for_contact contact_id
  transition c.id ConversationState.new ConversationState.ai_active system none none
  emit (first_activation c.id contact_id)
  pure (set_state ConversationState.ai_active c)

unfoldable pub pause_ai : ℕ → ℕ → ℕ → Bool → Action Inbox ⊤
pause_ai now i actor_id is_admin = do
  found ← gets (λ (s : Inbox). get i s.conversations)
  c ← or_raise found not_found
  lift (assert_actor_holds_lock now c actor_id is_admin)
  transition i ConversationState.ai_active ConversationState.ai_paused agent (some actor_id) none

-- `if conv.locked_by is not None: release_lock`
abbrev pub release_if_held : ℕ → Option ℕ → Action Inbox ⊤
release_if_held i none = pure tt
release_if_held i (some h) = release_lock i >>= λ _. pure tt

unfoldable pub resume_ai : ℕ → ℕ → Action Inbox ⊤
resume_ai i actor_id = do
  found ← gets (λ (s : Inbox). get i s.conversations)
  c ← or_raise found not_found
  transition i ConversationState.ai_paused ConversationState.ai_active agent (some actor_id) none
  release_if_held i c.locked_by

abbrev pub contains_id : ℕ → List ℕ → Bool
contains_id i [] = false
contains_id i (j ∷ js) = if j == i then true else contains_id i js

-- The writes of `assign`, with `ttl` for CONVERSATION_LOCK_TTL_SECONDS; whether the lock was taken is
-- not looked at.
unfoldable pub lock_and_move : ℕ → ℕ → ℕ → ℕ → ℕ → ConversationState → Action Inbox ⊤
lock_and_move ttl now i agent_id actor_id from_state = do
  rows ← acquire_lock now i agent_id ttl
  transition i from_state ConversationState.human_assigned agent (some actor_id) (some agent_id)

-- `assign`, once the conversation is found.
unfoldable pub assign_found : ℕ → ℕ → ℕ → ℕ → ℕ → Bool → Conversation → Action Inbox ⊤
assign_found ttl now i agent_id actor_id is_admin c = do
  lift (assert_transition c.state ConversationState.human_assigned)
  lift (assert_actor_holds_lock now c actor_id is_admin)
  users ← gets (λ (s : Inbox). s.users)
  raise_if (not (contains_id agent_id users)) not_found
  lock_and_move ttl now i agent_id actor_id c.state

-- `assign`
unfoldable pub assign : ℕ → ℕ → ℕ → ℕ → ℕ → Bool → Action Inbox ⊤
assign ttl now i agent_id actor_id is_admin = do
  found ← gets (λ (s : Inbox). get i s.conversations)
  c ← or_raise found not_found
  assign_found ttl now i agent_id actor_id is_admin c

unfoldable pub request_approval : ℕ → Action Inbox ⊤
request_approval i = do
  found ← gets (λ (s : Inbox). get i s.conversations)
  c ← or_raise found not_found
  transition i ConversationState.ai_active ConversationState.awaiting_approval ai none none

-- `draft` of `approve`, sent if there is one.
abbrev pub queue_draft : Option Message → Action Inbox (Option ℕ)
queue_draft none = pure none
queue_draft (some m) = update_delivery_status m.id queued none >> pure (some m.id)

abbrev pub is_awaiting : Conversation → Bool
is_awaiting c = same_state c.state ConversationState.awaiting_approval

-- `approve`, once the conversation is found.
unfoldable pub approve_found : ℕ → ℕ → Bool → Conversation → Action Inbox (Option ℕ)
approve_found i actor_id is_admin c = do
  raise_if (not (is_awaiting c)) state_transition_error
  contacts ← gets (λ (s : Inbox). s.contacts)
  lift (assert_can_act_on_awaiting contacts c actor_id is_admin)
  transition i ConversationState.awaiting_approval ConversationState.ai_active agent (some actor_id)
      none
  draft ← gets (λ (s : Inbox). get_latest_draft_outbound i s.messages)
  queue_draft draft

unfoldable pub approve : ℕ → ℕ → Bool → Action Inbox (Option ℕ)
approve i actor_id is_admin = do
  found ← gets (λ (s : Inbox). get i s.conversations)
  c ← or_raise found not_found
  approve_found i actor_id is_admin c

unfoldable pub reject : ℕ → ℕ → Bool → Action Inbox ⊤
reject i actor_id is_admin = do
  found ← gets (λ (s : Inbox). get i s.conversations)
  c ← or_raise found not_found
  raise_if (not (is_awaiting c)) state_transition_error
  contacts ← gets (λ (s : Inbox). s.contacts)
  lift (assert_can_act_on_awaiting contacts c actor_id is_admin)
  transition i ConversationState.awaiting_approval ConversationState.human_assigned agent
      (some actor_id) none

unfoldable pub close : ℕ → ℕ → ℕ → Bool → Action Inbox ⊤
close now i actor_id is_admin = do
  found ← gets (λ (s : Inbox). get i s.conversations)
  c ← or_raise found not_found
  lift (assert_actor_holds_lock now c actor_id is_admin)
  release_if_held i c.locked_by
  transition i c.state ConversationState.closed agent (some actor_id) none

-- `_LOCK_RELEASING_STATES`
abbrev pub is_releasing : ConversationState → Bool
is_releasing ConversationState.new = false
is_releasing ConversationState.ai_active = true
is_releasing ConversationState.awaiting_approval = true
is_releasing ConversationState.human_assigned = false
is_releasing ConversationState.ai_paused = true
is_releasing ConversationState.closed = true

abbrev pub is_leaving : ConversationState → ConversationState → Bool
is_leaving s t = same_state s ConversationState.human_assigned && is_releasing t

abbrev pub release_if : Bool → ℕ → Action Inbox ⊤
release_if false i = pure tt
release_if true i = release_lock i >>= λ _. pure tt

abbrev pub enable_ai : Conversation → Conversation
enable_ai c = record c { ai_enabled = true }

abbrev pub enable_if : Bool → ℕ → Action Inbox ⊤
enable_if false i = pure tt
enable_if true i = modify (put i enable_ai)

abbrev pub is_resuming : ConversationState → ConversationState → Bool
is_resuming s t =
    same_state s ConversationState.human_assigned && same_state t ConversationState.ai_active

-- `force_transition`, once the conversation is found.
unfoldable pub force_transition_found : ℕ → ConversationState → ℕ → Conversation → Action Inbox ⊤
force_transition_found i target actor_id c = do
  lift (assert_transition c.state target)
  release_if (is_leaving c.state target) i
  transition i c.state target admin (some actor_id) none
  enable_if (is_resuming c.state target) i

unfoldable pub force_transition : ℕ → ConversationState → ℕ → Action Inbox ⊤
force_transition i target actor_id = do
  found ← gets (λ (s : Inbox). get i s.conversations)
  c ← or_raise found not_found
  force_transition_found i target actor_id c

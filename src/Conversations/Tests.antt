-- ===== src/Conversations/Tests.antt =====
-- A small inbox: tests of the code of backend/app/modules/conversations, and the theorems at it.
use engage_os.Base.{arith, ℕ, ◌+◌, ◌≡◌, refl, true, false, none, some, [], ◌∷◌, ◌++◌, length}
use engage_os.Core.Exceptions.{permission_error, concurrent_modification}
use engage_os.Core.Action.{ok, err}
use engage_os.Conversations.StateMachine.{
  ai_active, awaiting_approval, human_assigned, closed, code_of, same_state, assert_transition,
  transition_event,
}
use engage_os.Conversations.StateMachine.Arcs.{verdict, assert_transition-transition_event}
use engage_os.Conversations.Store.{
  acquire_lock, Conversation, conversation_model, Contact, contact_model, Message, draft, ActorType,
  agent, AuditRow, moved, Event, arc_event, first_activation, Inbox, new_conversation, set_state,
  get_latest_draft_outbound, latest, update_state,
}
use engage_os.Conversations.Service.{
  transition, action_name, assert_actor_holds_lock, pause_ai, assign, close, force_transition,
  is_leaving, handle_inbound_message, approve,
}
use engage_os.Conversations.Locking.{acquire_lock-acquire_lock}
use engage_os.Conversations.Service.Valid.{IsValid}
use engage_os.Conversations.Service.Outcomes.{transition-transition, locked_out, first_error}
use engage_os.Conversations.Service.Closing.{HasRow, close-HasRow}
use engage_os.Conversations.Service.Forcing.{ForceOutcome, force_transition-ForceOutcome}
use engage_os.Conversations.Bulk.{BulkConversationPatch, BulkActionResponse, has_all, bulk_update}
use engage_os.Conversations.Bulk.Count.{bulk_update-length}

abbrev waiting : Conversation
waiting = record {
  id = 1;
  contact_id = 5;
  state = awaiting_approval;
  ai_enabled = true;
  locked_by = none;
  lock_expires_at = none;
}

abbrev taken : Conversation
taken = record {
  id = 2;
  contact_id = 6;
  state = human_assigned;
  ai_enabled = true;
  locked_by = some 7;
  lock_expires_at = some 200;
}

abbrev reply : Message
reply = record {
  id = 30;
  conversation_id = 1;
  is_outbound = true;
  delivery_status = draft;
  last_error = none;
  error_code = none;
  created_at = 50;
}

abbrev inbox : Inbox
inbox = record {
  conversations = waiting ∷ taken ∷ [];
  contacts = record { id = 5; assigned_agent_id = some 7 } ∷ [];
  users = 7 ∷ 8 ∷ [];
  tags = 40 ∷ [];
  contact_tags = [];
  messages = reply ∷ [];
  audit = [];
  events = [];
  next_id = 60;
}

abbrev empty_inbox : Inbox
empty_inbox = record {
  conversations = [];
  contacts = [];
  users = 7 ∷ [];
  tags = [];
  contact_tags = [];
  messages = [];
  audit = [];
  events = [];
  next_id = 1;
}

empty_inbox-IsValid : IsValid empty_inbox
empty_inbox-IsValid = record { traced = λ i c h. absurd (nothing h); below = tt; audit_below = tt }
  where
    nothing : {c : Conversation} → none ≡ some c → ⊥
    nothing h = cc

-- The agent of the contact approves: the draft 30 goes out.
approved_id : (approve 1 7 false inbox).0 ≡ ok (some 30)
unfolding approve engage_os.Conversations.Service.approve_found
    engage_os.Conversations.Service.assert_can_act_on_awaiting transition update_state same_state
    code_of get_latest_draft_outbound latest transition_event
    engage_os.Conversations.Store.update_delivery_status
approved_id = refl

assert_transition-transition_event_example :
    assert_transition closed ai_active ≡ verdict closed (transition_event closed ai_active)
assert_transition-transition_event_example = assert_transition-transition_event closed ai_active

transition-transition_example :
    let (r, s') = transition 1 awaiting_approval ai_active agent (some 7) none inbox in
    (r ≡ ok tt)
    × (transition 1 awaiting_approval human_assigned agent (some 8) none s'
        ≡ (err concurrent_modification, s'))
unfolding same_state code_of
transition-transition_example =
    transition-transition 1 awaiting_approval ai_active human_assigned agent agent (some 7) (some 8)
      none none inbox waiting refl refl refl

locked_out_example :
    (pause_ai 100 2 8 false inbox ≡ (err permission_error, inbox))
    × (close 100 2 8 false inbox ≡ (err permission_error, inbox))
    × (assign 120 100 2 8 8 false inbox
        ≡ (first_error (assert_transition human_assigned human_assigned) permission_error, inbox))
locked_out_example = locked_out 120 100 2 8 8 inbox taken refl refl

close-HasRow_example :
    let (r, s') = close 100 2 7 false inbox in
    (r ≡ ok tt)
    × HasRow 2 (λ d. (d.state ≡ closed) × (d.locked_by ≡ none)) s'
    × (s'.audit
        ≡ inbox.audit
          ++ moved agent
              (some 7)
              (action_name (transition_event human_assigned closed) human_assigned closed)
              2
              human_assigned
              closed
              none
            ∷ [])
unfolding assert_actor_holds_lock
close-HasRow_example = close-HasRow 100 2 7 false inbox taken refl refl

force_transition-ForceOutcome_example :
    ForceOutcome 2 ai_active inbox taken
      (assert_transition human_assigned ai_active)
      (force_transition 2 ai_active 9 inbox)
force_transition-ForceOutcome_example = force_transition-ForceOutcome 2 ai_active 9 inbox taken refl

abbrev patch : BulkConversationPatch
patch = record { state = some closed; add_tag_ids = 40 ∷ []; remove_tag_ids = [] }

bulk_update-length_example :
    (response : BulkActionResponse) × ((bulk_update 100 (1 ∷ 2 ∷ 3 ∷ []) patch 8 false inbox).0
      ≡ ok response)
    × (response.count + length response.failed ≡ length {A = ℕ} (1 ∷ 2 ∷ 3 ∷ []))
unfolding has_all
bulk_update-length_example = bulk_update-length 100 (1 ∷ 2 ∷ 3 ∷ []) patch 8 false inbox refl refl

acquire_lock-acquire_lock_example :
    let (r, s') = acquire_lock 100 1 7 120 inbox in
    (r ≡ ok 1)
    × (acquire_lock 150 1 8 120 s' ≡ (ok 0, s'))
    × ((acquire_lock 150 1 7 120 s').0 ≡ ok 1)
acquire_lock-acquire_lock_example =
    acquire_lock-acquire_lock 100 150 1 7 8 120 inbox waiting refl refl seven_eight (omega arith)
  where
    seven_eight : ¬ (◌≡◌ {A = ℕ} 7 8)
    seven_eight h = omega arith

-- ===== src/Conversations/Service/Inbound.antt =====
-- What `handle_inbound_message` of service.py does.
use engage_os.Base.{ℕ, ◌+◌, ◌≡◌, refl, ◌∙◌, true, none, some, [], ◌∷◌, ◌++◌}
use engage_os.Core.Action.{ok, pure, ◌>>◌, bind_to}
use engage_os.Core.Table.{get, get_fresh, get-append_new}
use engage_os.Conversations.StateMachine.{
  new, ai_active, same_state, code_of, transition_event, ev_first_activated,
}
use engage_os.Conversations.Store.{
  Conversation, conversation_model, contact_model, message_model, system, arc_event,
  first_activation, Inbox, set_state, create_for_contact, new_conversation,
}
use engage_os.Conversations.Service.{transition, handle_inbound_message, emit}
use engage_os.Conversations.Service.Valid.{IsValid, moved_to, transition_current}
use engage_os.Conversations.Service.Closing.{HasRow, moved_row}

-- The session with the new conversation.
abbrev with_new : ℕ → Inbox → Inbox
with_new contact_id s = record s {
  conversations = s.conversations ++ new_conversation s.next_id contact_id ∷ [];
  next_id = s.next_id + 1;
}

abbrev activated : ℕ → Inbox → Inbox
activated contact_id s = moved_to s.next_id new ai_active system none none (with_new contact_id s)

new_row :
    (contact_id : ℕ) (s : Inbox)
    → IsValid s
    → get s.next_id (with_new contact_id s).conversations
      ≡ some (new_conversation s.next_id contact_id)
new_row contact_id s v =
    get-append_new (new_conversation s.next_id contact_id) s.conversations
      (get_fresh s.next_id s.conversations v.below)

same_new : same_state new new ≡ true
unfolding same_state code_of
same_new = refl

create_lem :
    (contact_id : ℕ) (s : Inbox)
    → create_for_contact contact_id s
      ≡ (ok (new_conversation s.next_id contact_id), with_new contact_id s)
unfolding create_for_contact
create_lem contact_id s = refl

handle_inbound_message_lem :
    (contact_id : ℕ) (s : Inbox)
    → IsValid s
    → handle_inbound_message contact_id s ≡ (
      ok (set_state ai_active (new_conversation s.next_id contact_id)),
      record (activated contact_id s) {
        events = (activated contact_id s).events ++ first_activation s.next_id contact_id ∷ [];
      },
    )
unfolding handle_inbound_message
handle_inbound_message_lem contact_id s v =
    let c = new_conversation s.next_id contact_id in
    bind_to (create_for_contact contact_id)
      (λ (c : Conversation).
        transition c.id new ai_active system none none
        >> (emit (first_activation c.id contact_id) >> pure (set_state ai_active c)))
      s (create_lem contact_id s)
    ∙ bind_to (transition s.next_id new ai_active system none none)
        (λ x. emit (first_activation s.next_id contact_id) >> pure (set_state ai_active c))
        (with_new contact_id s)
        (transition_current s.next_id new ai_active system none none (with_new contact_id s)
          (new_row contact_id s v) same_new)

transition_event_first : transition_event new ai_active ≡ some ev_first_activated
unfolding transition_event
transition_event_first = refl

-- The method, which no route or task calls (the tasks of messaging reuse the open conversation of the
-- contact), opens a new conversation each time, which the AI is in charge of at once; the first
-- activation is announced twice, by the transition and by the method.
pub handle_inbound_message-HasRow :
    (contact_id : ℕ) (s : Inbox)
    → IsValid s
    → let (r, s') = handle_inbound_message contact_id s in
      (r ≡ ok (set_state ai_active (new_conversation s.next_id contact_id)))
      × HasRow s.next_id
          (λ d. (d.state ≡ ai_active) × (d.contact_id ≡ contact_id) × (d.locked_by ≡ none))
          s'
      × (s'.events
          ≡ (s.events ++ arc_event ev_first_activated s.next_id new ai_active ∷ [])
            ++ first_activation s.next_id contact_id ∷ [])
handle_inbound_message-HasRow contact_id s v =
    let c = new_conversation s.next_id contact_id in
    rw (handle_inbound_message_lem contact_id s v, transition_event_first)
      (
        refl,
        (
          set_state ai_active c,
          moved_row s.next_id new ai_active system none none (with_new contact_id s) c
              (new_row contact_id s v),
          (refl, refl, refl),
        ),
        refl,
      )

-- ===== src/Conversations/Service/Approval.antt =====
-- What `approve` of service.py does.
use engage_os.Base.{ℕ, ◌≡◌, refl, Bool, true, not, Option, none, some, List, ◌||◌, if◌then◌else◌}
use engage_os.Core.Exceptions.{not_found, state_transition_error, permission_error}
use engage_os.Core.Action.{Result, ok, err}
use engage_os.Core.Table.{get, update}
use engage_os.Conversations.StateMachine.{
  ConversationState, new, ai_active, awaiting_approval, ai_paused, closed, human_assigned,
  same_state, code_of,
}
use engage_os.Conversations.Store.{
  Conversation, conversation_model, Contact, contact_model, Message, message_model, queued,
  set_delivery, get_latest_draft_outbound, agent, Inbox,
}
use engage_os.Conversations.Service.{is_awaiting, is_other, owner_of}
use engage_os.Conversations.Service.Valid.{moved_to}
use engage_os.Conversations.Service.Closing.{HasRow}

-- Who may approve: the conversation exists, awaits an approval, and the caller is the admin, or the
-- agent of the contact, or the contact has none.
abbrev pub may_act : List Contact → ℕ → Bool → Option Conversation → Result Conversation
may_act contacts actor_id is_admin none = err not_found
may_act contacts actor_id is_admin (some c) =
    if not (is_awaiting c)
    then err state_transition_error
    else if is_admin || not (is_other (owner_of (get c.contact_id contacts)) actor_id)
    then ok c
    else err permission_error

unfoldable pub queued_messages : Option Message → List Message → List Message
queued_messages none ms = ms
queued_messages (some m) ms = update m.id (set_delivery queued none) ms

abbrev pub draft_id : Option Message → Option ℕ
draft_id none = none
draft_id (some m) = some m.id

abbrev pub ApproveOutcome : ℕ → Inbox → Result Conversation → Result (Option ℕ) × Inbox → Type 0
ApproveOutcome i s (err e) p = p ≡ (err e, s)
ApproveOutcome i s (ok c) (r, s') =
    let draft = get_latest_draft_outbound i s.messages in
    (r ≡ ok (draft_id draft))
    × HasRow i (λ d. (d.state ≡ ai_active) × (d.locked_by ≡ c.locked_by)) s'
    × (s'.messages ≡ queued_messages draft s.messages)

same_state_eq :
    (s : ConversationState) → same_state s awaiting_approval ≡ true → s ≡ awaiting_approval
unfolding same_state code_of
same_state_eq new h = cc
same_state_eq ai_active h = cc
same_state_eq awaiting_approval h = refl
same_state_eq human_assigned h = cc
same_state_eq ai_paused h = cc
same_state_eq closed h = cc

module _ (i actor_id : ℕ) (is_admin : Bool) (s : Inbox) where
  abbrev verdict : Option Conversation → Result Conversation
  verdict = may_act s.contacts actor_id is_admin

  abbrev approved : Inbox
  approved = moved_to i awaiting_approval ai_active agent (some actor_id) none s

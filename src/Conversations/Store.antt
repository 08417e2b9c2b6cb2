-- ===== src/Conversations/Store.antt =====
-- backend/app/modules/conversations/models.py and repository.py, with the tables of contacts, users,
-- tags and messages that the service reads. A moment is a number of seconds. Columns that nothing
-- here branches on (outreach_state, last_message_at, last_read_at, timestamps) are left out.
use engage_os.Base.{
  ℕ, ◌+◌, Bool, true, false, Option, none, some, List, [], ◌∷◌, ◌++◌, ◌&&◌, ◌||◌, ltb, ◌==◌,
  if◌then◌else◌, where_rows,
}
use engage_os.Core.Action.{⊤, Action, modify, ok}
use engage_os.Core.Table.{Model, get, update}
use engage_os.Conversations.StateMachine.{ConversationState, EventName, same_state}

pub record Conversation : Type 0 where
  pub id : ℕ
  pub contact_id : ℕ
  pub state : ConversationState
  pub ai_enabled : Bool
  pub locked_by : Option ℕ
  pub lock_expires_at : Option ℕ

pub record Contact : Type 0 where
  pub id : ℕ
  pub assigned_agent_id : Option ℕ

pub data DeliveryStatus : Type 0 where
  pending draft queued sent delivered read failed : DeliveryStatus

pub record Message : Type 0 where
  pub id : ℕ
  pub conversation_id : ℕ
  pub is_outbound : Bool
  pub delivery_status : DeliveryStatus
  pub last_error : Option ℕ
  pub error_code : Option ℕ
  pub created_at : ℕ

pub data ActorType : Type 0 where
  agent system admin ai : ActorType

-- The `action` of an audit row: a listed event, or the text made from the two states.
pub data ActionName : Type 0 where
  listed : EventName → ActionName
  arc : ConversationState → ConversationState → ActionName

-- The rows of the assignments module: a holder taken, let go, and removed by the sweep.
pub data LockChange : Type 0 where
  locked : ℕ → LockChange
  unlocked : ℕ → LockChange
  lock_expired : Option ℕ → LockChange

pub data AuditRow : Type 0 where
  moved :
      ActorType
      → Option ℕ
      → ActionName
      → ℕ
      → ConversationState
      → ConversationState
      → Option ℕ
      → AuditRow
  bulk_updated : ℕ → List ℕ → ℕ → AuditRow
  lock_changed : ActorType → Option ℕ → ℕ → LockChange → AuditRow

-- An emitted event: that of an arc, the extra one of a first activation, with the contact, and that
-- of a lock removed by the sweep.
pub data Event : Type 0 where
  arc_event : EventName → ℕ → ConversationState → ConversationState → Event
  first_activation : ℕ → ℕ → Event
  lock_expired_event : ℕ → Option ℕ → Event

-- What a session sees, and the events it has emitted.
pub record Inbox : Type 0 where
  pub conversations : List Conversation
  pub contacts : List Contact
  pub users : List ℕ
  pub tags : List ℕ
  pub contact_tags : List (ℕ × ℕ)
  pub messages : List Message
  pub audit : List AuditRow
  pub events : List Event
  pub next_id : ℕ

instance abbrev pub conversation_model : Model Conversation
conversation_model = record { pk = λ c. c.id }

instance abbrev pub contact_model : Model Contact
contact_model = record { pk = λ c. c.id }

instance abbrev pub message_model : Model Message
message_model = record { pk = λ m. m.id }

abbrev pub is_none : {A : Type 0} → Option A → Bool
is_none none = true
is_none (some a) = false

-- `column == value` and `column < value` in SQL, where a missing value is in no relation.
abbrev pub is_value : Option ℕ → ℕ → Bool
is_value none a = false
is_value (some b) a = b == a

abbrev pub is_before : Option ℕ → ℕ → Bool
is_before none t = false
is_before (some e) t = ltb e t

abbrev pub set_conversations : List Conversation → Inbox → Inbox
set_conversations cs s = record s { conversations = cs }

abbrev pub put : ℕ → (Conversation → Conversation) → Inbox → Inbox
put i f s = set_conversations (update i f s.conversations) s

abbrev pub set_state : ConversationState → Conversation → Conversation
set_state t c = record c { state = t }

abbrev pub set_lock : Option ℕ → Option ℕ → Conversation → Conversation
set_lock holder expiry c = record c { locked_by = holder; lock_expires_at = expiry }

-- `UPDATE ... WHERE id = i AND p` with the rowcount as its result.
abbrev pub update_where :
    ℕ → (Conversation → Bool) → (Conversation → Conversation) → Option Conversation → Action Inbox ℕ
update_where i p f none s = (ok 0, s)
update_where i p f (some c) s = if p c then (ok 1, put i f s) else (ok 0, s)

-- `update_state`
unfoldable pub update_state : ℕ → ConversationState → ConversationState → Action Inbox ℕ
update_state i expected new_state s =
    update_where i (λ c. same_state c.state expected) (set_state new_state) (get i s.conversations)
      s

-- `acquire_lock`: whether the caller may take the lock of this row.
abbrev pub is_free : ℕ → ℕ → Conversation → Bool
is_free now agent_id c =
    is_none c.locked_by || (is_before c.lock_expires_at now || is_value c.locked_by agent_id)

unfoldable pub acquire_lock : ℕ → ℕ → ℕ → ℕ → Action Inbox ℕ
acquire_lock now i agent_id ttl_seconds s =
    update_where i (is_free now agent_id) (set_lock (some agent_id) (some (now + ttl_seconds)))
      (get i s.conversations) s

-- `release_lock` without an agent: unconditional.
unfoldable pub release_lock : ℕ → Action Inbox ℕ
release_lock i s = update_where i (λ c. true) (set_lock none none) (get i s.conversations) s

-- `create_for_contact`: the columns' defaults.
abbrev pub new_conversation : ℕ → ℕ → Conversation
new_conversation i contact_id = record {
  id = i;
  contact_id = contact_id;
  state = ConversationState.new;
  ai_enabled = true;
  locked_by = none;
  lock_expires_at = none;
}

unfoldable pub create_for_contact : ℕ → Action Inbox Conversation
create_for_contact contact_id s =
    let c = new_conversation s.next_id contact_id in
    (ok c, record s { conversations = s.conversations ++ c ∷ []; next_id = s.next_id + 1 })

abbrev pub is_draft : DeliveryStatus → Bool
is_draft DeliveryStatus.draft = true
is_draft DeliveryStatus.pending = false
is_draft DeliveryStatus.queued = false
is_draft DeliveryStatus.sent = false
is_draft DeliveryStatus.delivered = false
is_draft DeliveryStatus.read = false
is_draft DeliveryStatus.failed = false

-- backend/app/modules/messaging/repository.py, `get_latest_draft_outbound`: of the drafts, the one
-- with the latest `created_at`; between two of the same moment, the query fixes no order.
abbrev pub draft_of : ℕ → Message → Bool
draft_of i m = (m.conversation_id == i) && (m.is_outbound && is_draft m.delivery_status)

abbrev pub later : Message → Option Message → Option Message
later m none = some m
later m (some n) = if ltb m.created_at n.created_at then some n else some m

unfoldable pub latest : List Message → Option Message
latest [] = none
latest (m ∷ ms) = later m (latest ms)

unfoldable pub get_latest_draft_outbound : ℕ → List Message → Option Message
get_latest_draft_outbound i ms = latest (where_rows (draft_of i) ms)

abbrev pub set_delivery : DeliveryStatus → Option ℕ → Message → Message
set_delivery st e m = record m { delivery_status = st; last_error = e; error_code = none }

-- `update_delivery_status`
unfoldable pub update_delivery_status : ℕ → DeliveryStatus → Option ℕ → Action Inbox ⊤
update_delivery_status i st e =
    modify (λ s. record s { messages = update i (set_delivery st e) s.messages })

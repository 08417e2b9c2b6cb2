-- ===== src/Messaging/Delivery.antt =====
-- backend/app/modules/messaging/tasks.py: `_apply_status_update` and what it calls, on one outbound
-- message, with its campaign's recipient and counters, the tags of its contact, and the Celery tasks
-- that are pending for it. Texts of errors are left out. A Meta message id is a number.
pub mod Frame
pub mod Order
use engage_os.Base.{
  ℕ, ◌+◌, ◌≡◌, Bool, true, false, not, ◌&&◌, ◌||◌, Option, none, some, List, [], ◌∷◌, ◌++◌, ◌==◌,
  leb, if◌then◌else◌,
}
use engage_os.Conversations.Store.{
  DeliveryStatus, pending, draft, queued, sent, delivered, read, failed, is_value,
}

-- A pending run of `send_outbound_message_task`, with its `request.retries`, or of
-- `reset_and_retry_message_task`.
pub data Task : Type 0 where
  send : ℕ → Task
  reset : Task

pub data RecipientStatus : Type 0 where
  is_pending is_sent is_delivered is_failed : RecipientStatus

pub record CampaignRecipient : Type 0 where
  pub meta_message_id : Option ℕ
  pub status : RecipientStatus
  pub error_code : Option ℕ

pub data DeliveryTag : Type 0 where
  not_on_whatsapp invalid_number undeliverable needs_follow_up : DeliveryTag

-- `calls` counts the requests to Meta that send this message; no code reads it.
pub record Delivery : Type 0 where
  pub status : DeliveryStatus
  pub is_outbound : Bool
  pub meta_message_id : Option ℕ
  pub retry_count : ℕ
  pub delivery_retry_count : ℕ
  pub error_code : Option ℕ
  pub recipient : Option CampaignRecipient
  pub delivered_count : ℕ
  pub failed_count : ℕ
  pub tags : List DeliveryTag
  pub outreach_undeliverable : Bool
  pub tasks : List Task
  pub calls : ℕ

-- The `status` text of a callback, lowered.
pub data StatusText : Type 0 where
  text_sent text_delivered text_read text_failed text_unknown : StatusText

-- `status_map.get`
abbrev pub status_map : StatusText → Option DeliveryStatus
status_map text_sent = some sent
status_map text_delivered = some delivered
status_map text_read = some read
status_map text_failed = some failed
status_map text_unknown = none

-- `_DELIVERY_RANK.get(status, -1)`, and one added.
abbrev pub delivery_rank : DeliveryStatus → ℕ
delivery_rank pending = 0
delivery_rank draft = 1
delivery_rank queued = 2
delivery_rank sent = 3
delivery_rank failed = 4
delivery_rank delivered = 5
delivery_rank read = 6

abbrev pub is_failed_status : DeliveryStatus → Bool
is_failed_status failed = true
is_failed_status pending = false
is_failed_status draft = false
is_failed_status queued = false
is_failed_status sent = false
is_failed_status delivered = false
is_failed_status read = false

abbrev pub or_keep : Option ℕ → Option ℕ → Option ℕ
or_keep none old = old
or_keep (some a) old = some a

-- `update_delivery_status_sync`: the id is written only if there is one.
abbrev pub update_delivery_status_sync : DeliveryStatus → Option ℕ → Option ℕ → Delivery → Delivery
update_delivery_status_sync new_status error_code meta_message_id d = record d {
  status = new_status;
  error_code = error_code;
  meta_message_id = or_keep meta_message_id d.meta_message_id;
}

-- `update_delivery_status_sync` of the campaign recipients.
abbrev pub set_recipient : RecipientStatus → Option ℕ → CampaignRecipient → CampaignRecipient
set_recipient is_failed error_code r = record r {
  status = is_failed;
  error_code = or_keep error_code r.error_code;
}
set_recipient is_delivered error_code r = record r { status = is_delivered; error_code = none }
set_recipient is_pending error_code r = record r { status = is_pending }
set_recipient is_sent error_code r = record r { status = is_sent }

-- The recipient that a Meta message id finds, with the new status and the campaign's counters.
abbrev pub count_for :
    ℕ → RecipientStatus → Option ℕ → ℕ → ℕ → Option CampaignRecipient → Delivery → Delivery
count_for wamid st error_code delivered_delta failed_delta none d = d
count_for wamid st error_code delivered_delta failed_delta (some r) d =
    if is_value r.meta_message_id wamid
    then record d {
      recipient = some (set_recipient st error_code r);
      delivered_count = d.delivered_count + delivered_delta;
      failed_count = d.failed_count + failed_delta;
    }
    else d

-- `_propagate_to_campaign_recipient`
abbrev pub propagate_to_campaign_recipient : ℕ → DeliveryStatus → Option ℕ → Delivery → Delivery
propagate_to_campaign_recipient wamid delivered error_code d =
    count_for wamid is_delivered error_code 1 0 d.recipient d
propagate_to_campaign_recipient wamid failed error_code d =
    count_for wamid is_failed error_code 0 1 d.recipient d
propagate_to_campaign_recipient wamid pending error_code d = d
propagate_to_campaign_recipient wamid draft error_code d = d
propagate_to_campaign_recipient wamid queued error_code d = d
propagate_to_campaign_recipient wamid sent error_code d = d
propagate_to_campaign_recipient wamid read error_code d = d

-- `tag_for_failure_code`, and `PERMANENT_FAILURE_CODES`: the codes that have a tag.
abbrev pub tag_for_code : ℕ → Option DeliveryTag
tag_for_code c =
    if (c == 131026) || ((c == 131047) || ((c == 131049) || (c == 131053)))
    then some not_on_whatsapp
    else if c == 131052
    then some invalid_number
    else if c == 131051
    then some undeliverable
    else none

abbrev pub tag_for_failure_code : Option ℕ → Option DeliveryTag
tag_for_failure_code none = none
tag_for_failure_code (some c) = tag_for_code c

abbrev pub is_permanent_failure : Option ℕ → Bool
is_permanent_failure none = false
is_permanent_failure (some c) =
    (c == 131026)
    || ((c == 131047) || ((c == 131049) || ((c == 131051) || ((c == 131052) || (c == 131053)))))

abbrev pub or_undeliverable : Option DeliveryTag → DeliveryTag
or_undeliverable none = undeliverable
or_undeliverable (some t) = t

-- `_auto_apply_delivery_tag_sync`: a tag that the contact has already is left as it is.
abbrev pub same_tag : DeliveryTag → DeliveryTag → Bool
same_tag not_on_whatsapp not_on_whatsapp = true
same_tag invalid_number invalid_number = true
same_tag undeliverable undeliverable = true
same_tag needs_follow_up needs_follow_up = true
same_tag not_on_whatsapp t = false
same_tag invalid_number t = false
same_tag undeliverable t = false
same_tag needs_follow_up t = false

abbrev pub add_tag : DeliveryTag → List DeliveryTag → List DeliveryTag
add_tag t [] = t ∷ []
add_tag t (u ∷ ts) = if same_tag u t then u ∷ ts else u ∷ add_tag t ts

abbrev pub apply_tag : DeliveryTag → Delivery → Delivery
apply_tag t d = record d { tags = add_tag t d.tags }

-- The tags and the outreach state by the new status.
abbrev pub classify : DeliveryStatus → Option ℕ → Delivery → Delivery
classify failed error_code d =
    if is_permanent_failure error_code
    then record (apply_tag (or_undeliverable (tag_for_failure_code error_code)) d) {
      outreach_undeliverable = true;
    }
    else d
classify delivered error_code d = if d.is_outbound then apply_tag needs_follow_up d else d
classify read error_code d = if d.is_outbound then apply_tag needs_follow_up d else d
classify pending error_code d = d
classify draft error_code d = d
classify queued error_code d = d
classify sent error_code d = d

abbrev pub push_task : Task → Delivery → Delivery
push_task t d = record d { tasks = d.tasks ++ t ∷ [] }

-- `MAX_DELIVERY_RETRIES`
abbrev pub max_delivery_retries : ℕ
max_delivery_retries = 3

-- `_maybe_schedule_delivery_retry`: `enabled` is false also when the setting cannot be read.
abbrev pub maybe_schedule_delivery_retry : Bool → ℕ → Delivery → Delivery
maybe_schedule_delivery_retry enabled delivery_retry_count d =
    if leb max_delivery_retries delivery_retry_count
    then d
    else if enabled
    then push_task reset d
    else d

abbrev pub retry_after : Bool → DeliveryStatus → Option ℕ → Delivery → Delivery
retry_after enabled st error_code d =
    if is_failed_status st && not (is_permanent_failure error_code)
    then maybe_schedule_delivery_retry enabled d.delivery_retry_count d
    else d

abbrev pub code_if_failed : DeliveryStatus → Option ℕ → Option ℕ
code_if_failed st error_code = if is_failed_status st then error_code else none

-- The part of `_apply_status_update` behind its early returns.
unfoldable pub advance_to : Bool → ℕ → DeliveryStatus → Option ℕ → Delivery → Delivery
advance_to enabled wamid st error_code d =
    let code = code_if_failed st error_code in
    let written = update_delivery_status_sync st code none d in
    retry_after enabled st code
      (classify st code (propagate_to_campaign_recipient wamid st code written))

abbrev pub advance_found : Bool → ℕ → Option DeliveryStatus → Option ℕ → Delivery → Delivery
advance_found enabled wamid none error_code d = d
advance_found enabled wamid (some st) error_code d =
    if not (is_value d.meta_message_id wamid)
    then d
    else if leb (delivery_rank st) (delivery_rank d.status)
    then d
    else advance_to enabled wamid st error_code d

-- `_apply_status_update`: a callback of Meta on the message with the given id.
unfoldable pub apply_status_update : Bool → ℕ → StatusText → Option ℕ → Delivery → Delivery
apply_status_update enabled wamid text error_code d =
    advance_found enabled wamid (status_map text) error_code d

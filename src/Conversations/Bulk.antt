-- ===== src/Conversations/Bulk.antt =====
-- backend/app/modules/conversations/service.py, `bulk_update`, with the tag tables of
-- backend/app/modules/categorization/repository.py.
pub mod Count
use engage_os.Base.{
  ℕ, ◌≡◌, Bool, true, false, not, Option, none, some, List, [], ◌∷◌, ◌++◌, ◌&&◌, ◌==◌, length,
  if◌then◌else◌, where_rows,
}
use engage_os.Core.Exceptions.{
  Error, PostingCode, not_found, conflict, permission_error, validation_error,
  state_transition_error, concurrent_modification, value_error, multiple_rows, integrity_error,
  conversation_locked, posting_error,
}
use engage_os.Core.Action.{
  ⊤, Result, ok, err, Action, gets, raise_if, lift, modify, pure, ◌>>=◌, ◌>>◌,
}
use engage_os.Core.Table.{get}
use engage_os.Conversations.StateMachine.{ConversationState, assert_transition}
use engage_os.Conversations.Store.{
  Conversation, conversation_model, Inbox, update_state, release_lock, bulk_updated,
}
use engage_os.Conversations.Service.{
  assert_actor_holds_lock, contains_id, append_audit, release_if, is_leaving,
}

pub record BulkConversationPatch : Type 0 where
  pub state : Option ConversationState
  pub add_tag_ids : List ℕ
  pub remove_tag_ids : List ℕ

pub record BulkActionResponse : Type 0 where
  pub count : ℕ
  pub failed : List (ℕ × Error)

-- `ContactTagRepository.attach`: nothing on a conflict.
abbrev pub has_tag : ℕ → ℕ → List (ℕ × ℕ) → Bool
has_tag contact tag [] = false
has_tag contact tag ((c, t) ∷ rows) =
    if (c == contact) && (t == tag) then true else has_tag contact tag rows

abbrev pub add_tag : ℕ → ℕ → List (ℕ × ℕ) → List (ℕ × ℕ)
add_tag contact tag rows = if has_tag contact tag rows then rows else rows ++ (contact, tag) ∷ []

abbrev pub drop_tag : ℕ → ℕ → List (ℕ × ℕ) → List (ℕ × ℕ)
drop_tag contact tag rows = where_rows (λ row. not ((row.0 == contact) && (row.1 == tag))) rows

abbrev pub attach : ℕ → ℕ → Action Inbox ⊤
attach contact tag = modify (λ s. record s { contact_tags = add_tag contact tag s.contact_tags })

abbrev pub detach : ℕ → ℕ → Action Inbox ⊤
detach contact tag = modify (λ s. record s { contact_tags = drop_tag contact tag s.contact_tags })

abbrev pub each : (ℕ → Action Inbox ⊤) → List ℕ → Action Inbox ⊤
each f [] = pure tt
each f (t ∷ ts) = f t >> each f ts

-- A referenced tag that does not exist fails the whole call.
unfoldable pub has_all : List ℕ → List ℕ → Bool
has_all [] tags = true
has_all (t ∷ ts) tags = contains_id t tags && has_all ts tags

abbrev pub check_tags : List ℕ → Action Inbox ⊤
check_tags ts s = (if has_all ts s.tags then ok tt else err not_found, s)

-- The state part of a patch: `some` error is one that is recorded without being raised.
unfoldable pub patch_state :
    ℕ → Conversation → ℕ → ℕ → Bool → Option ConversationState → Action Inbox (Option Error)
patch_state now c i actor_id is_admin none = pure none
patch_state now c i actor_id is_admin (some target) = do
  lift (assert_transition c.state target)
  lift (assert_actor_holds_lock now c actor_id is_admin)
  rows ← update_state i c.state target
  if rows == 0
      then pure (some concurrent_modification)
      else (release_if (is_leaving c.state target) i >>= λ _. pure none)

abbrev pub patch_tags :
    BulkConversationPatch → Conversation → Option Error → Action Inbox (Option Error)
patch_tags patch c (some e) = pure (some e)
patch_tags patch c none =
    each (attach c.contact_id) patch.add_tag_ids
    >> (each (detach c.contact_id) patch.remove_tag_ids >> pure none)

abbrev pub patch_found :
    ℕ → BulkConversationPatch → ℕ → Bool → ℕ → Option Conversation → Action Inbox (Option Error)
patch_found now patch actor_id is_admin i none = pure (some not_found)
patch_found now patch actor_id is_admin i (some c) =
    patch_state now c i actor_id is_admin patch.state >>= patch_tags patch c

-- The body of the loop, before its `except`.
unfoldable pub patch_one : ℕ → BulkConversationPatch → ℕ → Bool → ℕ → Action Inbox (Option Error)
patch_one now patch actor_id is_admin i = do
  found ← gets (λ (s : Inbox). get i s.conversations)
  patch_found now patch actor_id is_admin i found

-- The errors that the loop's `except` names.
abbrev pub is_caught : Error → Bool
is_caught not_found = false
is_caught conflict = true
is_caught permission_error = true
is_caught validation_error = true
is_caught state_transition_error = true
is_caught concurrent_modification = true
is_caught value_error = false
is_caught multiple_rows = false
is_caught integrity_error = false
is_caught conversation_locked = false
is_caught (posting_error code) = false

-- What the loop has collected: `updated_ids` and `failed`.
pub record Tally : Type 0 where
  pub updated_ids : List ℕ
  pub failed : List (ℕ × Error)

abbrev pub count_updated : ℕ → Tally → Tally
count_updated i t = record t { updated_ids = t.updated_ids ++ i ∷ [] }

abbrev pub count_failed : ℕ → Error → Tally → Tally
count_failed i e t = record t { failed = t.failed ++ (i, e) ∷ [] }

abbrev pub tally : ℕ → Tally → Result (Option Error) → Result Tally
tally i t (ok none) = ok (count_updated i t)
tally i t (ok (some e)) = ok (count_failed i e t)
tally i t (err e) = if is_caught e then ok (count_failed i e t) else err e

-- `try: ... except: failed.append(...)`
abbrev pub attempt : ℕ → Tally → Action Inbox (Option Error) → Action Inbox Tally
attempt i t m s = let (r, s') = m s in (tally i t r, s')

unfoldable pub patch_each :
    ℕ → BulkConversationPatch → ℕ → Bool → List ℕ → Tally → Action Inbox Tally
patch_each now patch actor_id is_admin [] t = pure t
patch_each now patch actor_id is_admin (i ∷ ids) t =
    attempt i t (patch_one now patch actor_id is_admin i)
    >>= patch_each now patch actor_id is_admin ids

abbrev pub nothing_yet : Tally
nothing_yet = record { updated_ids = []; failed = [] }

-- `bulk_update`, once the tags are checked.
unfoldable pub bulk_update_checked :
    ℕ → List ℕ → BulkConversationPatch → ℕ → Bool → Action Inbox BulkActionResponse
bulk_update_checked now ids patch actor_id is_admin = do
  t ← patch_each now patch actor_id is_admin ids nothing_yet
  append_audit (bulk_updated actor_id t.updated_ids (length t.failed))
  pure (record { count = length t.updated_ids; failed = t.failed })

unfoldable pub bulk_update :
    ℕ → List ℕ → BulkConversationPatch → ℕ → Bool → Action Inbox BulkActionResponse
bulk_update now ids patch actor_id is_admin = do
  check_tags patch.add_tag_ids
  check_tags patch.remove_tag_ids
  bulk_update_checked now ids patch actor_id is_admin

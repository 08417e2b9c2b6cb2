-- ===== src/Conversations/Bulk/Count.antt =====
-- What `bulk_update` of service.py answers.
use engage_os.Base.{
  ℕ, ◌+◌, ◌≡◌, refl, ap, ◌∙◌, Bool, true, false, Option, none, some, List, [], ◌∷◌, arith,
  if◌then◌else◌, length, length-append,
}
use engage_os.Core.Exceptions.{Error}
use engage_os.Core.Action.{⊤, Result, ok, err, Action, lift, pure, ◌>>=◌, ◌>>◌, bind_to}
use engage_os.Core.Table.{get}
use engage_os.Conversations.StateMachine.{ConversationState, assert_transition, same_state}
use engage_os.Conversations.Store.{
  Conversation, conversation_model, Inbox, bulk_updated, update_state, update_where, set_state,
  set_lock, release_lock,
}
use engage_os.Conversations.Service.{assert_actor_holds_lock, append_audit, release_if}
use engage_os.Conversations.Bulk.{
  BulkConversationPatch, BulkActionResponse, Tally, nothing_yet, count_updated, count_failed, tally,
  attempt, patch_state, patch_found, patch_tags, patch_one, patch_each, bulk_update,
  bulk_update_checked, has_all, check_tags, each, attach, detach, is_caught,
}

-- An outcome that the loop goes on after.
abbrev IsCaught : {A : Type 0} → Result A → Type 0
IsCaught (ok a) = Unit
IsCaught (err e) = is_caught e ≡ true

unfoldable Catches : {A : Type 0} → Action Inbox A → Type 0
Catches m = (s : Inbox) → IsCaught (m s).0

after :
    {A B : Type 0} (f : A → Action Inbox B) (r : Result A) (s : Inbox)
    → IsCaught r
    → ((a : A) → Catches (f a))
    → IsCaught (((λ t. (r, t)) >>= f) s).0
unfolding Catches
after f (ok a) s h hf = hf a s
after f (err e) s h hf = h

bind-Catches :
    {A B : Type 0} (m : Action Inbox A) (f : A → Action Inbox B)
    → Catches m
    → ((a : A) → Catches (f a))
    → Catches (m >>= f)
unfolding Catches
bind-Catches m f hm hf s = after f (m s).0 (m s).1 (hm s) hf

then-Catches :
    {A B : Type 0} (m : Action Inbox A) (k : Action Inbox B)
    → Catches m
    → Catches k
    → Catches (m >> k)
then-Catches m k hm hk = bind-Catches m (λ a. k) hm (λ a. hk)

lift_transition-Catches :
    (s t : ConversationState) → Catches (lift {S = Inbox} (assert_transition s t))
unfolding Catches assert_transition
lift_transition-Catches s t inbox = ground arith

lift_lock-Catches :
    (now : ℕ) (c : Conversation) (a : ℕ) (adm : Bool)
    → Catches (lift {S = Inbox} (assert_actor_holds_lock now c a adm))
unfolding Catches assert_actor_holds_lock
lift_lock-Catches now c a adm inbox = ground arith

update_where-Catches :
    (i : ℕ) (p : Conversation → Bool) (f : Conversation → Conversation)
    (found : Option Conversation)
    → Catches (update_where i p f found)
unfolding Catches
update_where-Catches i p f none s = tt
update_where-Catches i p f (some c) s = ground arith

update_state-Catches : (i : ℕ) (s t : ConversationState) → Catches (update_state i s t)
unfolding Catches update_state
update_state-Catches i s t inbox =
    unfold Catches in
    update_where-Catches i (λ c. same_state c.state s) (set_state t) (get i inbox.conversations)
      inbox

pure-Catches : {A : Type 0} (a : A) → Catches (pure a)
unfolding Catches
pure-Catches a s = tt

release_lock-Catches : (i : ℕ) → Catches (release_lock i)
unfolding Catches release_lock
release_lock-Catches i inbox =
    unfold Catches in
    update_where-Catches i (λ c. true) (set_lock none none) (get i inbox.conversations) inbox

release_if-Catches : (b : Bool) (i : ℕ) → Catches (release_if b i)
release_if-Catches false i = pure-Catches tt
release_if-Catches true i =
    bind-Catches (release_lock i) (λ rows. pure tt) (release_lock-Catches i)
      (λ rows. pure-Catches tt)

if-Catches :
    {A : Type 0} (b : Bool) (m k : Action Inbox A)
    → Catches m
    → Catches k
    → Catches (if b then m else k)
if-Catches true m k hm hk = hm
if-Catches false m k hm hk = hk

each-Catches :
    (f : ℕ → Action Inbox ⊤) (ts : List ℕ) → ((t : ℕ) → Catches (f t)) → Catches (each f ts)
each-Catches f [] h = pure-Catches tt
each-Catches f (t ∷ ts) h = then-Catches (f t) (each f ts) (h t) (each-Catches f ts h)

attach-Catches : (contact t : ℕ) → Catches (attach contact t)
unfolding Catches
attach-Catches contact t s = tt

detach-Catches : (contact t : ℕ) → Catches (detach contact t)
unfolding Catches
detach-Catches contact t s = tt

patch_state-Catches :
    (now : ℕ) (c : Conversation) (i a : ℕ) (adm : Bool) (target : Option ConversationState)
    → Catches (patch_state now c i a adm target)
unfolding patch_state
patch_state-Catches now c i a adm none = pure-Catches {A = Option Error} none
patch_state-Catches now c i a adm (some target) =
    search
      (
        bind-Catches, then-Catches, lift_transition-Catches, lift_lock-Catches,
        update_state-Catches, if-Catches, release_if-Catches, pure-Catches,
      )
      depth 9

patch_tags-Catches :
    (patch : BulkConversationPatch) (c : Conversation) (e : Option Error)
    → Catches (patch_tags patch c e)
patch_tags-Catches patch c (some e) = pure-Catches (some e)
patch_tags-Catches patch c none =
    search (then-Catches, each-Catches, attach-Catches, detach-Catches, pure-Catches)

patch_one-Catches :
    (now : ℕ) (patch : BulkConversationPatch) (a : ℕ) (adm : Bool) (i : ℕ)
    → Catches (patch_one now patch a adm i)
unfolding patch_one Catches
patch_one-Catches now patch a adm i s = go (get i s.conversations)
  where
    go : (found : Option Conversation) → IsCaught (patch_found now patch a adm i found s).0
    go none = tt
    go (some c) =
        bind-Catches (patch_state now c i a adm patch.state) (patch_tags patch c)
          (patch_state-Catches now c i a adm patch.state) (patch_tags-Catches patch c) s

-- Every id of a round is either counted as updated or listed as failed.
tally-count :
    (i n : ℕ) (t : Tally) (r : Result (Option Error))
    → IsCaught r
    → length t.updated_ids + length t.failed ≡ n
    → (t' : Tally) × (tally i t r ≡ ok t') × (length t'.updated_ids + length t'.failed ≡ n + 1)
tally-count i n t (ok none) h e =
    (count_updated i t, refl, rw (length-append t.updated_ids (i ∷ [])) (omega arith))
tally-count i n t (ok (some x)) h e =
    (count_failed i x t, refl, rw (length-append t.failed ((i, x) ∷ [])) (omega arith))
tally-count i n t (err x) h e =
    (count_failed i x t, rw h refl, rw (length-append t.failed ((i, x) ∷ [])) (omega arith))

patch_each-count :
    (now : ℕ) (patch : BulkConversationPatch) (a : ℕ) (adm : Bool) (ids : List ℕ) (t : Tally)
    (n : ℕ) (s : Inbox)
    → length t.updated_ids + length t.failed ≡ n
    → (t' : Tally) × ((patch_each now patch a adm ids t s).0 ≡ ok t')
      × (length t'.updated_ids + length t'.failed ≡ n + length ids)
unfolding patch_each
patch_each-count now patch a adm [] t n s e = (t, refl, omega arith)
patch_each-count now patch a adm (i ∷ ids) t n s e =
    let s' = (patch_one now patch a adm i s).1 in
    let (t1, eq, count) =
      tally-count i n t (patch_one now patch a adm i s).0
        (unfold Catches in patch_one-Catches now patch a adm i s) e in
    let (t2, eq2, count2) = patch_each-count now patch a adm ids t1 (n + 1) s' count in
    (
      t2,
      ap (λ r. r.0)
            (bind_to (attempt i t (patch_one now patch a adm i)) (patch_each now patch a adm ids) s
              (ap (λ r. (r, s')) eq))
          ∙ eq2,
      omega arith,
    )

bulk_response : Tally → BulkActionResponse
bulk_response t = record { count = length t.updated_ids; failed = t.failed }

check_tags_ok : (ts : List ℕ) (s : Inbox) → has_all ts s.tags ≡ true → check_tags ts s ≡ (ok tt, s)
check_tags_ok ts s h = rw h refl

bulk_update_tagged :
    (now : ℕ) (ids : List ℕ) (patch : BulkConversationPatch) (a : ℕ) (adm : Bool) (s : Inbox)
    → has_all patch.add_tag_ids s.tags ≡ true
    → has_all patch.remove_tag_ids s.tags ≡ true
    → bulk_update now ids patch a adm s ≡ bulk_update_checked now ids patch a adm s
unfolding bulk_update
bulk_update_tagged now ids patch a adm s h h' =
    let rest = bulk_update_checked now ids patch a adm in
    bind_to (check_tags patch.add_tag_ids) (λ x. check_tags patch.remove_tag_ids >> rest) s
      (check_tags_ok patch.add_tag_ids s h)
    ∙ bind_to (check_tags patch.remove_tag_ids) (λ x. rest) s
        (check_tags_ok patch.remove_tag_ids s h')

bulk_update_counted :
    (now : ℕ) (ids : List ℕ) (patch : BulkConversationPatch) (a : ℕ) (adm : Bool) (s : Inbox)
    (t : Tally)
    → (patch_each now patch a adm ids nothing_yet s).0 ≡ ok t
    → (bulk_update_checked now ids patch a adm s).0 ≡ ok (bulk_response t)
unfolding bulk_update_checked bulk_response
bulk_update_counted now ids patch a adm s t eq =
    let loop = patch_each now patch a adm ids nothing_yet in
    ap (λ r. r.0)
      (bind_to loop
        (λ (u : Tally).
          append_audit (bulk_updated a u.updated_ids (length u.failed))
          >> pure (record { count = length u.updated_ids; failed = u.failed }))
        s (ap (λ r. (r, (loop s).1)) eq))

-- A bulk update whose tags all exist never raises, whatever is wrong with single conversations: every
-- id of the request, repetitions included, is either counted as updated or reported as failed.
pub bulk_update-length :
    (now : ℕ) (ids : List ℕ) (patch : BulkConversationPatch) (a : ℕ) (adm : Bool) (s : Inbox)
    → has_all patch.add_tag_ids s.tags ≡ true
    → has_all patch.remove_tag_ids s.tags ≡ true
    → (response : BulkActionResponse) × ((bulk_update now ids patch a adm s).0 ≡ ok response)
      × (response.count + length response.failed ≡ length ids)
unfolding bulk_response
bulk_update-length now ids patch a adm s h h' =
    let (t, eq, count) = patch_each-count now patch a adm ids nothing_yet 0 s refl in
    (
      bulk_response t,
      ap (λ r. r.0) (bulk_update_tagged now ids patch a adm s h h')
          ∙ bulk_update_counted now ids patch a adm s t eq,
      omega arith,
    )

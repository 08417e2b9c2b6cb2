-- ===== src/Messaging/Delivery/Order.antt =====
-- Callbacks of Meta out of order (backend/app/modules/messaging/tasks.py, `_apply_status_update`).
use mathlib.Core.List.{Perm, Permᴰ}
use mathlib.Core.Logic.{∥∥₁_elim}
use native.Mathlib.Decide.{ℕ_discrete}
use engage_os.Base.{
  ℕ, ◌≡◌, refl, sym, ap, ◌∙◌, Bool, true, not, ◌&&◌, Option, none, some, List, [], ◌∷◌, leb, ◌==◌,
  ==_refl, if◌then◌else◌, arith, inl, inr, Bool-cases,
}
use engage_os.Conversations.Store.{
  DeliveryStatus, pending, draft, queued, sent, delivered, read, failed, is_value,
}
use engage_os.Messaging.Delivery.{
  Delivery, StatusText, status_map, delivery_rank, is_failed_status, is_permanent_failure,
  max_delivery_retries, retry_after, classify, propagate_to_campaign_recipient,
  update_delivery_status_sync, code_if_failed, advance_to, advance_found, apply_status_update,
}
use engage_os.Messaging.Delivery.Frame.{part-effects}

-- A callback on a message, with the setting of the moment.
pub record Callback : Type 0 where
  pub retry_enabled : Bool
  pub text : StatusText
  pub error_code : Option ℕ

unfoldable pub apply_updates : ℕ → List Callback → Delivery → Delivery
apply_updates wamid [] d = d
apply_updates wamid (c ∷ cs) d =
    apply_updates wamid cs (apply_status_update c.retry_enabled wamid c.text c.error_code d)

-- The strongest status among some callbacks and a first one, by rank.
abbrev pub max_rank : ℕ → ℕ → ℕ
max_rank a b = if leb a b then b else a

abbrev pub rank_of : Option DeliveryStatus → ℕ
rank_of none = 0
rank_of (some st) = delivery_rank st

abbrev pub strongest : List Callback → ℕ → ℕ
strongest [] r = r
strongest (c ∷ cs) r = strongest cs (max_rank (rank_of (status_map c.text)) r)

-- What the next callback reads.
abbrev Seen : Type 0
Seen = DeliveryStatus × Option ℕ

abbrev seen : Delivery → Seen
seen d = (d.status, d.meta_message_id)

seen-retry_after :
    (enabled : Bool) (st : DeliveryStatus) (code : Option ℕ) (d : Delivery)
    → seen (retry_after enabled st code d) ≡ seen d
seen-retry_after enabled st code d =
    elim (Bool-cases (is_failed_status st && not (is_permanent_failure code))) [
      | inr e ↦ rw e refl
      | inl e ↦ elim (Bool-cases (leb max_delivery_retries d.delivery_retry_count)) [
        | inl e' ↦ rw (e, e') refl
        | inr e' ↦ elim (Bool-cases enabled) [
          | inl b ↦ rw (e, e', b) refl
          | inr b ↦ rw (e, e', b) refl
        ]
      ]
    ]

seen-advance_to :
    (enabled : Bool) (wamid : ℕ) (st : DeliveryStatus) (code : Option ℕ) (d : Delivery)
    → seen (advance_to enabled wamid st code d) ≡ (st, d.meta_message_id)
unfolding advance_to
seen-advance_to enabled wamid st code d =
    let c = code_if_failed st code in
    let written = update_delivery_status_sync st c none d in
    seen-retry_after enabled st c
      (classify st c (propagate_to_campaign_recipient wamid st c written))
    ∙ part-effects seen (λ e r a b. refl) (λ e ts u. refl) wamid st c written

max_rank_zero : (r : ℕ) → max_rank 0 r ≡ r
max_rank_zero r = ground arith

-- One callback on the message that it names.
advance_found-strongest :
    (enabled : Bool) (wamid : ℕ) (st : Option DeliveryStatus) (code : Option ℕ) (d : Delivery)
    → d.meta_message_id ≡ some wamid
    → let d' = advance_found enabled wamid st code d in
      (delivery_rank d'.status ≡ max_rank (rank_of st) (delivery_rank d.status))
      × (d'.meta_message_id ≡ some wamid)
advance_found-strongest enabled wamid none code d h =
    (sym (max_rank_zero (delivery_rank d.status)), h)
advance_found-strongest enabled wamid (some st) code d h =
    let mine : is_value d.meta_message_id wamid ≡ true =
      ap (λ o. is_value o wamid) h ∙ ==_refl wamid in
    elim (Bool-cases (leb (delivery_rank st) (delivery_rank d.status))) [
      | inl low ↦ rw (mine, low) (refl, h)
      | inr up ↦
          let now = seen-advance_to enabled wamid st code d in
          rw (mine, up) (ap (λ s. delivery_rank s.0) now, ap (λ s. s.1) now ∙ h)
    ]

apply_updates-strongest :
    (wamid : ℕ) (cs : List Callback) (d : Delivery)
    → d.meta_message_id ≡ some wamid
    → delivery_rank (apply_updates wamid cs d).status ≡ strongest cs (delivery_rank d.status)
unfolding apply_updates apply_status_update
apply_updates-strongest wamid [] d h = refl
apply_updates-strongest wamid (c ∷ cs) d h =
    let (rank, mine) =
      advance_found-strongest c.retry_enabled wamid (status_map c.text) c.error_code d h in
    apply_updates-strongest wamid cs
      (advance_found c.retry_enabled wamid (status_map c.text) c.error_code d) mine
    ∙ ap (strongest cs) rank

-- The order of the callbacks does not matter to the strongest status.
max_rank_swap : (a b r : ℕ) → max_rank b (max_rank a r) ≡ max_rank a (max_rank b r)
max_rank_swap a b r = ground arith

strongest-Permᴰ : {cs ds : List Callback} → Permᴰ cs ds → (r : ℕ) → strongest cs r ≡ strongest ds r
strongest-Permᴰ Permᴰ.nil r = refl
strongest-Permᴰ (Permᴰ.cons {a = a} {l₂ = l₂} e p) r =
    strongest-Permᴰ p (max_rank (rank_of (status_map a.text)) r)
    ∙ ap (λ (c : Callback). strongest l₂ (max_rank (rank_of (status_map c.text)) r)) e
strongest-Permᴰ (Permᴰ.swap {a = a} {b = b} {b' = b'} {l = l} e f) r =
    ap (strongest l) (max_rank_swap (rank_of (status_map a.text)) (rank_of (status_map b.text)) r)
    ∙ (ap
          (λ (c : Callback).
            strongest l
              (max_rank (rank_of (status_map c.text)) (max_rank (rank_of (status_map b.text)) r)))
          e
        ∙ ap
            (λ (c : Callback).
              strongest l (
                max_rank (rank_of (status_map b'.text)) (max_rank (rank_of (status_map c.text)) r)))
            f)
strongest-Permᴰ (Permᴰ.trans p q) r = strongest-Permᴰ p r ∙ strongest-Permᴰ q r

abbrev status_of_rank : ℕ → DeliveryStatus
status_of_rank n =
    if n == 0
    then pending
    else if n == 1
    then draft
    else if n == 2
    then queued
    else if n == 3
    then sent
    else if n == 4
    then failed
    else if n == 5
    then delivered
    else read

status_of_rank-delivery_rank : (st : DeliveryStatus) → status_of_rank (delivery_rank st) ≡ st
status_of_rank-delivery_rank pending = refl
status_of_rank-delivery_rank draft = refl
status_of_rank-delivery_rank queued = refl
status_of_rank-delivery_rank sent = refl
status_of_rank-delivery_rank failed = refl
status_of_rank-delivery_rank delivered = refl
status_of_rank-delivery_rank read = refl

same_rank : (s t : DeliveryStatus) → delivery_rank s ≡ delivery_rank t → s ≡ t
same_rank s t h =
    sym (status_of_rank-delivery_rank s) ∙ (ap status_of_rank h ∙ status_of_rank-delivery_rank t)

-- Callbacks on a message that carries their id leave the status whose rank is the highest among the
-- status before and the statuses they name, so that every order of the same callbacks leaves the same
-- status.
pub apply_updates-Perm :
    (wamid : ℕ) (cs ds : List Callback) (d : Delivery)
    → d.meta_message_id ≡ some wamid
    → Perm cs ds
    → (delivery_rank (apply_updates wamid cs d).status ≡ strongest cs (delivery_rank d.status))
      × ((apply_updates wamid cs d).status ≡ (apply_updates wamid ds d).status)
apply_updates-Perm wamid cs ds d h p =
    let one : strongest cs (delivery_rank d.status) ≡ strongest ds (delivery_rank d.status) =
      ∥∥₁_elim p (hlevel ℕ_discrete) (λ q. strongest-Permᴰ q (delivery_rank d.status)) in
    (
      apply_updates-strongest wamid cs d h,
      same_rank _ _ (
          apply_updates-strongest wamid cs d h
          ∙ (one ∙ sym (apply_updates-strongest wamid ds d h))),
    )

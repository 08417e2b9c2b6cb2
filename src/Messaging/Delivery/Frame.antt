-- ===== src/Messaging/Delivery/Frame.antt =====
-- The columns that a callback's work on the campaign and the tags
-- (backend/app/modules/messaging/tasks.py) leaves alone.
use engage_os.Base.{
  ℕ, ◌≡◌, refl, ◌∙◌, Bool, true, false, Option, none, some, List, if◌then◌else◌, inl, inr,
  Bool-cases,
}
use engage_os.Conversations.Store.{
  DeliveryStatus, pending, draft, queued, sent, delivered, read, failed, is_value,
}
use engage_os.Messaging.Delivery.{
  CampaignRecipient, RecipientStatus, is_delivered, is_failed, DeliveryTag, Delivery, count_for,
  propagate_to_campaign_recipient, classify, is_permanent_failure,
}

-- Any part of the row that none of these columns is in.
module _ {X : Type 0} (part : Delivery → X)
    (no_campaign : (d : Delivery) (r : Option CampaignRecipient) (a b : ℕ)
      → part (record d { recipient = r; delivered_count = a; failed_count = b }) ≡ part d)
    (no_tags : (d : Delivery) (ts : List DeliveryTag) (u : Bool)
      → part (record d { tags = ts; outreach_undeliverable = u }) ≡ part d) where
  part-count_for :
      (wamid : ℕ) (st : RecipientStatus) (code : Option ℕ) (a b : ℕ) (r : Option CampaignRecipient)
      (d : Delivery)
      → part (count_for wamid st code a b r d) ≡ part d
  part-count_for wamid st code a b none d = refl
  part-count_for wamid st code a b (some r) d =
      elim (Bool-cases (is_value r.meta_message_id wamid)) [
        | inl e ↦ rw e (no_campaign d _ _ _)
        | inr e ↦ rw e refl
      ]

  part-propagate :
      (wamid : ℕ) (st : DeliveryStatus) (code : Option ℕ) (d : Delivery)
      → part (propagate_to_campaign_recipient wamid st code d) ≡ part d
  part-propagate wamid delivered code d = part-count_for wamid is_delivered code 1 0 d.recipient d
  part-propagate wamid failed code d = part-count_for wamid is_failed code 0 1 d.recipient d
  part-propagate wamid pending code d = refl
  part-propagate wamid draft code d = refl
  part-propagate wamid queued code d = refl
  part-propagate wamid sent code d = refl
  part-propagate wamid read code d = refl

  either_part :
      (b : Bool) (x y d : Delivery)
      → part x ≡ part d
      → part y ≡ part d
      → part (if b then x else y) ≡ part d
  either_part true x y d h k = h
  either_part false x y d h k = k

  part-classify :
      (st : DeliveryStatus) (code : Option ℕ) (d : Delivery) → part (classify st code d) ≡ part d
  part-classify failed code d = either_part (is_permanent_failure code) _ d d (no_tags d _ _) refl
  part-classify delivered code d = either_part d.is_outbound _ d d (no_tags d _ _) refl
  part-classify read code d = either_part d.is_outbound _ d d (no_tags d _ _) refl
  part-classify pending code d = refl
  part-classify draft code d = refl
  part-classify queued code d = refl
  part-classify sent code d = refl

  pub part-effects :
      (wamid : ℕ) (st : DeliveryStatus) (code : Option ℕ) (d : Delivery)
      → part (classify st code (propagate_to_campaign_recipient wamid st code d)) ≡ part d
  part-effects wamid st code d =
      part-classify st code (propagate_to_campaign_recipient wamid st code d)
      ∙ part-propagate wamid st code d

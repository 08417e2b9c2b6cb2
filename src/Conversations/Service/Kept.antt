-- ===== src/Conversations/Service/Kept.antt =====
-- The parts that the methods of service.py are put together from, and the invariant of the tables.
use engage_os.Base.{
  ℕ, ◌+◌, ◌≡◌, refl, sym, ◌∙◌, Bool, true, false, Option, none, some, List, [], ◌∷◌, ◌++◌, arith,
  inl, inr, ◌==◌, Bool-cases, Option-cases, some-eq_some, ==-eq_true, ==-eq_false,
}
use engage_os.Core.Exceptions.{Error}
use engage_os.Core.Action.{
  Result, ok, err, Action, raise_if, or_raise, lift, gets, pure, ◌>>=◌, ◌>>◌,
}
use engage_os.Core.Table.{get, get-append, update, IsBelow-append_next}
use engage_os.Conversations.StateMachine.{ConversationState, new, same_state}
use engage_os.Conversations.Store.{
  Conversation, conversation_model, ActorType, AuditRow, moved, bulk_updated, lock_changed, Inbox,
  Message, update_where, acquire_lock, release_lock, is_free, set_lock, create_for_contact,
  new_conversation, update_delivery_status, Event,
}
use engage_os.Conversations.Service.{
  transition, emit, release_if_held, release_if, enable_if, enable_ai, queue_draft,
}
use engage_os.Conversations.Service.Valid.{
  IsValid, IsTraced, IsAuditBelow, IsHarmless, replay, put-IsValid, transition_missing,
  transition_stale, transition_current, moved_to-IsValid,
}

-- What an action leaves behind is valid if what it found was, whether it returns or raises.
abbrev pub Preserves : {A : Type 0} → Action Inbox A → Type 0
Preserves m = (s : Inbox) → IsValid s → IsValid (m s).1

after :
    {A B : Type 0} (f : A → Action Inbox B)
    → ((a : A) → Preserves (f a))
    → (r : Result A) (s : Inbox) → IsValid s
    → IsValid (((λ t. (r, t)) >>= f) s).1
after f h (ok a) s v = h a s v
after f h (err e) s v = v

pub bind-IsValid :
    {A B : Type 0} (m : Action Inbox A) (f : A → Action Inbox B)
    → Preserves m
    → ((a : A) → Preserves (f a))
    → Preserves (m >>= f)
bind-IsValid m f hm hf s v = after f hf (m s).0 (m s).1 (hm s v)

pub then-IsValid :
    {A B : Type 0} (m : Action Inbox A) (k : Action Inbox B)
    → Preserves m
    → Preserves k
    → Preserves (m >> k)
then-IsValid m k hm hk = bind-IsValid m (λ a. k) hm (λ a. hk)

-- The actions that only read.
pub lift-IsValid : {A : Type 0} (r : Result A) → Preserves (lift r)
lift-IsValid r s v = v

pub gets-IsValid : {A : Type 0} (f : Inbox → A) → Preserves (gets f)
gets-IsValid f s v = v

pub raise_if-IsValid : (c : Bool) (e : Error) → Preserves (raise_if c e)
raise_if-IsValid c e s v = v

pub or_raise-IsValid : {A : Type 0} (found : Option A) (e : Error) → Preserves (or_raise found e)
or_raise-IsValid none e s v = v
or_raise-IsValid (some a) e s v = v

pub transition-IsValid :
    (i : ℕ) (s t : ConversationState) (who : ActorType) (actor_id assigned : Option ℕ)
    → Preserves (transition i s t who actor_id assigned)
transition-IsValid i s t who actor_id assigned inbox v =
    elim (Option-cases (get i inbox.conversations)) [
      | inl h ↦ rw (transition_missing i s t who actor_id assigned inbox h) v
      | inr (c, h) ↦ elim (Bool-cases (same_state c.state s)) [
        | inl e ↦
            rw (transition_current i s t who actor_id assigned inbox h e)
              (moved_to-IsValid i s t who actor_id assigned inbox c h e v)
        | inr e ↦ rw (transition_stale i s t who actor_id assigned inbox h e) v
      ]
    ]

pub update_where-IsValid :
    (i : ℕ) (p : Conversation → Bool) (f : Conversation → Conversation) (s : Inbox)
    → IsHarmless f
    → IsValid s
    → IsValid (update_where i p f (get i s.conversations) s).1
update_where-IsValid i p f s harmless v = elim (Option-cases (get i s.conversations)) [
  | inl h ↦ rw h v
  | inr (c, h) ↦ elim (Bool-cases (p c)) [
    | inl e ↦ rw (h, e) (put-IsValid i f s c harmless h v)
    | inr e ↦ rw (h, e) v
  ]
]

pub release_lock-IsValid : (i : ℕ) → Preserves (release_lock i)
unfolding release_lock
release_lock-IsValid i s v =
    update_where-IsValid i (λ c. true) (set_lock none none) s (λ c. (refl, refl, λ h. refl)) v

pub acquire_lock-IsValid : (now i agent_id ttl : ℕ) → Preserves (acquire_lock now i agent_id ttl)
unfolding acquire_lock
acquire_lock-IsValid now i agent_id ttl s v =
    update_where-IsValid i (is_free now agent_id) (set_lock (some agent_id) (some (now + ttl))) s
      (λ c. (refl, refl, λ h. refl)) v

pub pure-IsValid : {A : Type 0} (a : A) → Preserves (pure a)
pure-IsValid a s v = v

pub release_if_held-IsValid : (i : ℕ) (held : Option ℕ) → Preserves (release_if_held i held)
release_if_held-IsValid i none = pure-IsValid tt
release_if_held-IsValid i (some h) =
    bind-IsValid (release_lock i) (λ rows. pure tt) (release_lock-IsValid i)
      (λ rows. pure-IsValid tt)

pub release_if-IsValid : (b : Bool) (i : ℕ) → Preserves (release_if b i)
release_if-IsValid false i = pure-IsValid tt
release_if-IsValid true i =
    bind-IsValid (release_lock i) (λ rows. pure tt) (release_lock-IsValid i)
      (λ rows. pure-IsValid tt)

update_missing :
    (i : ℕ) (f : Conversation → Conversation) (cs : List Conversation)
    → get i cs ≡ none
    → update i f cs ≡ cs
update_missing i f [] h = refl
update_missing i f (c ∷ cs) h = ground (arith, update_missing i f cs)

pub enable_if-IsValid : (b : Bool) (i : ℕ) → Preserves (enable_if b i)
enable_if-IsValid false i = pure-IsValid tt
enable_if-IsValid true i = λ s v. elim (Option-cases (get i s.conversations)) [
  | inl h ↦ rw (update_missing i enable_ai s.conversations h) v
  | inr (c, h) ↦ put-IsValid i enable_ai s c (λ d. (refl, refl, λ pair. pair)) h v
]

pub emit-IsValid : (e : Event) → Preserves (emit e)
emit-IsValid e s v = record { traced = v.traced; below = v.below; audit_below = v.audit_below }

pub queue_draft-IsValid : (m : Option Message) → Preserves (queue_draft m)
unfolding update_delivery_status
queue_draft-IsValid none = pure-IsValid {A = Option ℕ} none
queue_draft-IsValid (some m) =
    λ s v. record { traced = v.traced; below = v.below; audit_below = v.audit_below }

get-append_none :
    (j : ℕ) (cs ds : List Conversation) → get j cs ≡ none → get j (cs ++ ds) ≡ get j ds
get-append_none j [] ds h = refl
get-append_none j (c ∷ cs) ds h = ground (arith, get-append_none j cs ds)

replay_fresh :
    (n : ℕ) (rows : List AuditRow) → IsAuditBelow n rows → replay n (some new) rows ≡ some new
unfolding replay
replay_fresh n [] h = refl
replay_fresh n (moved who a name j s t assigned ∷ rows) (h, below) =
    let other : (j == n) ≡ false = ==-eq_false j n (λ e. absurd (omega arith)) in
    rw other (replay_fresh n rows below)
replay_fresh n (bulk_updated a ids k ∷ rows) below = replay_fresh n rows below
replay_fresh n (lock_changed who a j change ∷ rows) below = replay_fresh n rows below

IsAuditBelow-suc : (n : ℕ) (rows : List AuditRow) → IsAuditBelow n rows → IsAuditBelow (n + 1) rows
IsAuditBelow-suc n [] h = tt
IsAuditBelow-suc n (moved who a name j s t assigned ∷ rows) (h, below) =
    (omega arith, IsAuditBelow-suc n rows below)
IsAuditBelow-suc n (bulk_updated a ids k ∷ rows) h = IsAuditBelow-suc n rows h
IsAuditBelow-suc n (lock_changed who a j change ∷ rows) h = IsAuditBelow-suc n rows h

none≢some : {c : Conversation} → none ≡ some c → ⊥
none≢some h = cc

-- The only row that a lookup can find in a table of one.
get_only : (j : ℕ) (c d : Conversation) → get j (c ∷ []) ≡ some d → (c.id ≡ j) × (c ≡ d)
get_only j c d h = elim (Bool-cases (c.id == j)) [
  | inl e ↦ (==-eq_true c.id j e, some-eq_some (rw e at h))
  | inr e ↦ absurd (none≢some (rw e at h))
]

new_IsTraced :
    (s : Inbox) (contact_id : ℕ)
    → IsValid s
    → IsTraced s.audit s.next_id (new_conversation s.next_id contact_id)
unfolding IsTraced
new_IsTraced s contact_id v = (replay_fresh s.next_id s.audit v.audit_below, refl)

create-IsTraced :
    (s : Inbox) (contact_id j : ℕ) (d : Conversation)
    → IsValid s
    → get j (s.conversations ++ new_conversation s.next_id contact_id ∷ []) ≡ some d
    → IsTraced s.audit j d
create-IsTraced s contact_id j d v h = elim (Option-cases (get j s.conversations)) [
  | inl missing ↦
      let c = new_conversation s.next_id contact_id in
      let (same, eq) =
        get_only j c d (sym (get-append_none j s.conversations (c ∷ []) missing) ∙ h) in
      rw (← same, ← eq) (new_IsTraced s contact_id v)
  | inr (c, found) ↦ v.traced j d (
      found
      ∙ (sym (get-append j s.conversations (new_conversation s.next_id contact_id ∷ []) found) ∙ h))
]

pub create_for_contact-IsValid : (contact_id : ℕ) → Preserves (create_for_contact contact_id)
unfolding create_for_contact
create_for_contact-IsValid contact_id s v = record {
  traced = λ j d h. create-IsTraced s contact_id j d v h;
  below = IsBelow-append_next (new_conversation s.next_id contact_id) s.conversations v.below;
  audit_below = IsAuditBelow-suc s.next_id s.audit v.audit_below;
}

-- What the methods are made of.
pub ruleset valid = (
  bind-IsValid, then-IsValid, lift-IsValid, gets-IsValid, raise_if-IsValid, or_raise-IsValid,
  pure-IsValid, transition-IsValid, release_lock-IsValid, acquire_lock-IsValid,
  release_if_held-IsValid, release_if-IsValid, enable_if-IsValid, emit-IsValid, queue_draft-IsValid,
  create_for_contact-IsValid,
)

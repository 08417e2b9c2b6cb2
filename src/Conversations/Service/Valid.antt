-- ===== src/Conversations/Service/Valid.antt =====
-- The invariant of service.py's tables, on the audit trail of each conversation and its two lock
-- columns.
use engage_os.Base.{
  ℕ, suc, ◌≤◌, ◌≡◌, refl, sym, ap, ◌∙◌, ◌≢◌, true, false, Option, none, some, List, [], ◌∷◌, ◌++◌,
  arith, ◌⊎◌, inl, inr, ◌==◌, if◌then◌else◌, Bool-cases, some-eq_some, ==-eq_true, ==-eq_false,
  ==_refl,
}
use engage_os.Core.Exceptions.{concurrent_modification}
use engage_os.Core.Action.{ok, err, bind_to}
use engage_os.Core.Table.{get, update, get-update_self, get-update_ne, IsBelow, IsBelow-update}
use engage_os.Conversations.StateMachine.{ConversationState, new, same_state, transition_event}
use engage_os.Conversations.Store.{
  Conversation, conversation_model, ActorType, ActionName, AuditRow, moved, bulk_updated,
  lock_changed, arc_event, Inbox, put, set_state, is_none, update_state,
}
use engage_os.Conversations.Service.{transition, record_move, action_name, event_name}

-- The state that the audit trail of a conversation leads to, if each row starts where the one before
-- it ended.
abbrev pub replay_row : ℕ → AuditRow → ConversationState → Option ConversationState
replay_row i (moved who actor_id name j s t assigned) current =
    if j == i then (if same_state current s then some t else none) else some current
replay_row i (bulk_updated actor_id ids failed) current = some current
replay_row i (lock_changed who actor_id j change) current = some current

abbrev pub replay_next :
    (ConversationState → Option ConversationState)
    → Option ConversationState
    → Option ConversationState
replay_next f none = none
replay_next f (some s) = f s

unfoldable pub replay : ℕ → Option ConversationState → List AuditRow → Option ConversationState
replay i s [] = s
replay i s (row ∷ rows) = replay i (replay_next (replay_row i row) s) rows

pub replay-append :
    (i : ℕ) (s : Option ConversationState) (rows : List AuditRow) (row : AuditRow)
    → replay i s (rows ++ row ∷ []) ≡ replay_next (replay_row i row) (replay i s rows)
unfolding replay
replay-append i s [] row = refl
replay-append i s (r ∷ rows) row = replay-append i (replay_next (replay_row i r) s) rows row

-- The audit rows are about conversations that exist.
abbrev pub IsAuditBelow : ℕ → List AuditRow → Type 0
IsAuditBelow n [] = Unit
IsAuditBelow n (moved who actor_id name j s t assigned ∷ rows) = (suc j ≤ n) × IsAuditBelow n rows
IsAuditBelow n (bulk_updated actor_id ids failed ∷ rows) = IsAuditBelow n rows
IsAuditBelow n (lock_changed who actor_id j change ∷ rows) = IsAuditBelow n rows

-- What holds of a row of the table.
unfoldable pub IsTraced : List AuditRow → ℕ → Conversation → Type 0
IsTraced audit i c =
    (replay i (some new) audit ≡ some c.state) × (is_none c.locked_by ≡ is_none c.lock_expires_at)

pub record IsValid (s : Inbox) : Type 0 where
  pub traced : (i : ℕ) (c : Conversation) → get i s.conversations ≡ some c → IsTraced s.audit i c
  pub below : IsBelow s.next_id s.conversations
  pub audit_below : IsAuditBelow s.next_id s.audit

ne_of : (a b : ℕ) → (a == b) ≡ false → a ≢ b
ne_of a b h = ground arith

get-update_cases :
    (i j : ℕ) (f : Conversation → Conversation) (cs : List Conversation) (c d : Conversation)
    → ((y : Conversation) → (f y).id ≡ y.id)
    → get i cs ≡ some c
    → get j (update i f cs) ≡ some d
    → ((i ≡ j) × (f c ≡ d)) ⊎ ((i ≢ j) × (get j cs ≡ some d))
get-update_cases i j f cs c d keep found h = elim (Bool-cases (i == j)) [
  | inl e ↦
      let same = ==-eq_true i j e in
      let at_i : get i (update i f cs) ≡ some d = ap (λ k. get k (update i f cs)) same ∙ h in
      inl (same, some-eq_some (sym (get-update_self i f cs keep found) ∙ at_i))
  | inr e ↦ let other = ne_of i j e in inr (other, sym (get-update_ne i j f cs keep other) ∙ h)
]

-- An update that keeps the state and the pairing of the lock columns.
abbrev pub IsHarmless : (Conversation → Conversation) → Type 0
IsHarmless f =
    (c : Conversation)
    → ((f c).id ≡ c.id)
      × ((f c).state ≡ c.state)
      × (is_none c.locked_by ≡ is_none c.lock_expires_at
          → is_none (f c).locked_by ≡ is_none (f c).lock_expires_at)

IsTraced-subst :
    (audit : List AuditRow) (i : ℕ) (c d : Conversation)
    → c ≡ d
    → IsTraced audit i c
    → IsTraced audit i d
IsTraced-subst audit i c d e h = rw (← e) h

harmless-IsTraced :
    (audit : List AuditRow) (i : ℕ) (f : Conversation → Conversation) (c : Conversation)
    → IsHarmless f
    → IsTraced audit i c
    → IsTraced audit i (f c)
unfolding IsTraced
harmless-IsTraced audit i f c harmless (trail, pair) =
    (trail ∙ ap some (sym (harmless c).1), (harmless c).2 pair)

pub put-IsValid :
    (i : ℕ) (f : Conversation → Conversation) (s : Inbox) (c : Conversation)
    → IsHarmless f
    → get i s.conversations ≡ some c
    → IsValid s
    → IsValid (put i f s)
put-IsValid i f s c harmless found v = record {
  traced = λ j d h.
      elim (get-update_cases i j f s.conversations c d (λ y. (harmless y).0) found h) [
        | inl (same, e) ↦
            IsTraced-subst s.audit j (f c) d e
              (harmless-IsTraced s.audit j f c harmless (v.traced j c (rw (← same) found)))
        | inr (other, h') ↦ v.traced j d h'
      ];
  below = IsBelow-update s.next_id i f s.conversations (λ y. (harmless y).0) v.below;
  audit_below = v.audit_below;
}

-- `_transition` goes through exactly if the row is in the expected state.
abbrev pub moved_to :
    ℕ → ConversationState → ConversationState → ActorType → Option ℕ → Option ℕ → Inbox → Inbox
moved_to i s t who actor_id assigned inbox =
    let name = transition_event s t in
    record inbox {
      conversations = update i (set_state t) inbox.conversations;
      audit = inbox.audit ++ moved who actor_id (action_name name s t) i s t assigned ∷ [];
      events = inbox.events ++ arc_event (event_name name) i s t ∷ [];
    }

module _ (i : ℕ) (s t : ConversationState) (who : ActorType) (actor_id assigned : Option ℕ)
    (inbox : Inbox) where
  update_missing : get i inbox.conversations ≡ none → update_state i s t inbox ≡ (ok 0, inbox)
  unfolding update_state
  update_missing h = rw h refl

  update_stale :
      {c : Conversation}
      → get i inbox.conversations ≡ some c
      → same_state c.state s ≡ false
      → update_state i s t inbox ≡ (ok 0, inbox)
  unfolding update_state
  update_stale h e = rw (h, e) refl

  pub update_current :
      {c : Conversation}
      → get i inbox.conversations ≡ some c
      → same_state c.state s ≡ true
      → update_state i s t inbox ≡ (ok 1, put i (set_state t) inbox)
  unfolding update_state
  update_current h e = rw (h, e) refl

  transition_refused :
      update_state i s t inbox ≡ (ok 0, inbox)
      → transition i s t who actor_id assigned inbox ≡ (err concurrent_modification, inbox)
  unfolding transition
  transition_refused h =
      bind_to (update_state i s t) (record_move i s t who actor_id assigned) inbox h

  pub transition_missing :
      get i inbox.conversations ≡ none
      → transition i s t who actor_id assigned inbox ≡ (err concurrent_modification, inbox)
  transition_missing h = transition_refused (update_missing h)

  pub transition_stale :
      {c : Conversation}
      → get i inbox.conversations ≡ some c
      → same_state c.state s ≡ false
      → transition i s t who actor_id assigned inbox ≡ (err concurrent_modification, inbox)
  transition_stale h e = transition_refused (update_stale h e)

  pub transition_current :
      {c : Conversation}
      → get i inbox.conversations ≡ some c
      → same_state c.state s ≡ true
      → transition i s t who actor_id assigned inbox
        ≡ (ok tt, moved_to i s t who actor_id assigned inbox)
  unfolding transition
  transition_current h e =
      bind_to (update_state i s t) (record_move i s t who actor_id assigned) inbox
        (update_current h e)

get-IsBelow :
    (n i : ℕ) (cs : List Conversation) (c : Conversation)
    → IsBelow n cs
    → get i cs ≡ some c
    → suc i ≤ n
get-IsBelow n i [] c h found = cc
get-IsBelow n i (x ∷ cs) c h found = ground (arith, get-IsBelow n i cs c h.1)

IsAuditBelow-append :
    (n i : ℕ) (rows : List AuditRow) (who : ActorType) (actor_id : Option ℕ) (name : ActionName)
    (s t : ConversationState) (assigned : Option ℕ)
    → suc i ≤ n
    → IsAuditBelow n rows
    → IsAuditBelow n (rows ++ moved who actor_id name i s t assigned ∷ [])
IsAuditBelow-append n i [] who actor_id name s t assigned h below = (h, tt)
IsAuditBelow-append n i (moved w a m j x y z ∷ rows) who actor_id name s t assigned h below =
    (below.0, IsAuditBelow-append n i rows who actor_id name s t assigned h below.1)
IsAuditBelow-append n i (bulk_updated a ids k ∷ rows) who actor_id name s t assigned h below =
    IsAuditBelow-append n i rows who actor_id name s t assigned h below
IsAuditBelow-append n i (lock_changed w a j change ∷ rows) who actor_id name s t assigned h below =
    IsAuditBelow-append n i rows who actor_id name s t assigned h below

module _ (i : ℕ) (s t : ConversationState) (who : ActorType) (actor_id assigned : Option ℕ)
    (inbox : Inbox) (c : Conversation) where
  trail_self :
      IsTraced inbox.audit i c
      → same_state c.state s ≡ true
      → IsTraced (moved_to i s t who actor_id assigned inbox).audit i (set_state t c)
  unfolding IsTraced
  trail_self (trail, pair) e = (
    replay-append i (some new) inbox.audit
          (moved who actor_id (action_name (transition_event s t) s t) i s t assigned)
        ∙ rw (trail, ==_refl i, e) refl,
    pair,
  )

  trail_other :
      (j : ℕ) (d : Conversation)
      → i ≢ j
      → IsTraced inbox.audit j d
      → IsTraced (moved_to i s t who actor_id assigned inbox).audit j d
  unfolding IsTraced
  trail_other j d other (trail, pair) = (
    replay-append j (some new) inbox.audit
          (moved who actor_id (action_name (transition_event s t) s t) i s t assigned)
        ∙ rw (trail, ==-eq_false i j other) refl,
    pair,
  )

  pub moved_to-IsValid :
      get i inbox.conversations ≡ some c
      → same_state c.state s ≡ true
      → IsValid inbox
      → IsValid (moved_to i s t who actor_id assigned inbox)
  moved_to-IsValid found e v = record {
    traced = λ j d h.
        elim (get-update_cases i j (set_state t) inbox.conversations c d (λ y. refl) found h) [
          | inl (same, eq) ↦
              IsTraced-subst (moved_to i s t who actor_id assigned inbox).audit j (set_state t c) d
                eq (rw (← same) (trail_self (v.traced i c found) e))
          | inr (other, h') ↦ trail_other j d other (v.traced j d h')
        ];
    below = IsBelow-update inbox.next_id i (set_state t) inbox.conversations (λ y. refl) v.below;
    audit_below =
        IsAuditBelow-append inbox.next_id i inbox.audit who actor_id
          (action_name (transition_event s t) s t) s t assigned
          (get-IsBelow inbox.next_id i inbox.conversations c v.below found) v.audit_below;
  }

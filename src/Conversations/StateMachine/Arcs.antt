-- ===== src/Conversations/StateMachine/Arcs.antt =====
-- The arcs of state_machine.py: its two tables, and what can be reached along them.
use engage_os.Base.{◌≡◌, refl, true, Option, none, some, if◌then◌else◌}
use engage_os.Core.Exceptions.{conflict, validation_error}
use engage_os.Core.Action.{⊤, Result, ok, err}
use engage_os.Conversations.StateMachine.{
  ConversationState, new, ai_active, awaiting_approval, human_assigned, ai_paused, closed, code_of,
  same_state, allowed_transitions, can_transition, assert_transition, EventName, transition_event,
}

-- The verdict on an arc, by the event that the arc is recorded under.
unfoldable pub verdict : ConversationState → Option EventName → Result ⊤
unfolding same_state code_of
verdict s (some e) = ok tt
verdict s none = if same_state s closed then err conflict else err validation_error

-- An arc is accepted exactly if it has an event of its own; anything else is refused, with a
-- conflict out of the closed state and with a validation error elsewhere.
pub assert_transition-transition_event :
    (s t : ConversationState) → assert_transition s t ≡ verdict s (transition_event s t)
unfolding assert_transition can_transition allowed_transitions same_state code_of transition_event
    verdict
assert_transition-transition_event new new = refl
assert_transition-transition_event new ai_active = refl
assert_transition-transition_event new awaiting_approval = refl
assert_transition-transition_event new human_assigned = refl
assert_transition-transition_event new ai_paused = refl
assert_transition-transition_event new closed = refl
assert_transition-transition_event ai_active new = refl
assert_transition-transition_event ai_active ai_active = refl
assert_transition-transition_event ai_active awaiting_approval = refl
assert_transition-transition_event ai_active human_assigned = refl
assert_transition-transition_event ai_active ai_paused = refl
assert_transition-transition_event ai_active closed = refl
assert_transition-transition_event awaiting_approval new = refl
assert_transition-transition_event awaiting_approval ai_active = refl
assert_transition-transition_event awaiting_approval awaiting_approval = refl
assert_transition-transition_event awaiting_approval human_assigned = refl
assert_transition-transition_event awaiting_approval ai_paused = refl
assert_transition-transition_event awaiting_approval closed = refl
assert_transition-transition_event human_assigned new = refl
assert_transition-transition_event human_assigned ai_active = refl
assert_transition-transition_event human_assigned awaiting_approval = refl
assert_transition-transition_event human_assigned human_assigned = refl
assert_transition-transition_event human_assigned ai_paused = refl
assert_transition-transition_event human_assigned closed = refl
assert_transition-transition_event ai_paused new = refl
assert_transition-transition_event ai_paused ai_active = refl
assert_transition-transition_event ai_paused awaiting_approval = refl
assert_transition-transition_event ai_paused human_assigned = refl
assert_transition-transition_event ai_paused ai_paused = refl
assert_transition-transition_event ai_paused closed = refl
assert_transition-transition_event closed new = refl
assert_transition-transition_event closed ai_active = refl
assert_transition-transition_event closed awaiting_approval = refl
assert_transition-transition_event closed human_assigned = refl
assert_transition-transition_event closed ai_paused = refl
assert_transition-transition_event closed closed = refl

-- A conversation's moves, one legal arc after the other.
pub data Moves : ConversationState → ConversationState → Type 0 where
  stay : {s : ConversationState} → Moves s s
  move :
      {s u : ConversationState} (t : ConversationState)
      → can_transition s t ≡ true
      → Moves t u
      → Moves s u

closed_stuck : (t : ConversationState) → can_transition closed t ≡ true → {A : Type 0} → A
unfolding can_transition allowed_transitions
closed_stuck t h = cc

not_to_new : (s : ConversationState) → can_transition s new ≡ true → {A : Type 0} → A
unfolding can_transition allowed_transitions same_state code_of
not_to_new new h = cc
not_to_new ai_active h = cc
not_to_new awaiting_approval h = cc
not_to_new human_assigned h = cc
not_to_new ai_paused h = cc
not_to_new closed h = cc

from_new : (t : ConversationState) → Moves new t
unfolding can_transition allowed_transitions same_state code_of
from_new new = stay
from_new ai_active = move ai_active refl stay
from_new awaiting_approval = move ai_active refl (move awaiting_approval refl stay)
from_new human_assigned = move human_assigned refl stay
from_new ai_paused = move human_assigned refl (move ai_paused refl stay)
from_new closed = move closed refl stay

to_closed : (s : ConversationState) → Moves s closed
unfolding can_transition allowed_transitions same_state code_of
to_closed new = move closed refl stay
to_closed ai_active = move closed refl stay
to_closed awaiting_approval = move closed refl stay
to_closed human_assigned = move closed refl stay
to_closed ai_paused = move closed refl stay
to_closed closed = stay

from_closed : {s t : ConversationState} → Moves s t → s ≡ closed → t ≡ closed
from_closed stay e = e
from_closed (move {s = s} t h m) e = closed_stuck t (rw e at h)

to_new : {s t : ConversationState} → Moves s t → t ≡ new → s ≡ new
to_new stay e = e
to_new (move {s = s} t h m) e = not_to_new s (rw (to_new m e) at h)

-- Along the legal arcs every state can be reached from the new one and the closed one from every
-- state; nothing leads out of the closed state, and nothing back to the new one.
pub moves :
    ((t : ConversationState) → Moves new t × Moves t closed)
    × ((t : ConversationState) → Moves closed t → t ≡ closed)
    × ((s : ConversationState) → Moves s new → s ≡ new)
moves = ((λ t. (from_new t, to_closed t)), (λ t m. from_closed m refl), (λ s m. to_new m refl))

-- ===== src/Conversations/StateMachine.antt =====
-- backend/app/modules/conversations/state_machine.py and constants.py: the states of a conversation,
-- the legal arcs between them and the event that each arc is recorded under.
pub mod Arcs
use Prim.Native.String.{String}
use engage_os.Base.{
  ℕ, ◌≡◌, refl, sym, ap, ◌∙◌, ◌≢◌, ◌↔◌, ◌⊎◌, inl, inr, Bool, true, false, Option, none, some, List,
  [], ◌∷◌, ◌==◌, arith, if◌then◌else◌,
}
use engage_os.Core.Exceptions.{Error, conflict, validation_error}
use engage_os.Core.Action.{⊤, Result, ok, err}

pub data ConversationState : Type 0 where
  new ai_active awaiting_approval human_assigned ai_paused closed : ConversationState

-- The place of a state in its enumeration, by which two states are compared.
unfoldable pub code_of : ConversationState → ℕ
code_of new = 0
code_of ai_active = 1
code_of awaiting_approval = 2
code_of human_assigned = 3
code_of ai_paused = 4
code_of closed = 5

unfoldable pub same_state : ConversationState → ConversationState → Bool
unfolding code_of
same_state s t = code_of s == code_of t

-- `_ALLOWED`
unfoldable pub allowed_transitions : ConversationState → List ConversationState
allowed_transitions new = ai_active ∷ human_assigned ∷ closed ∷ []
allowed_transitions ai_active = awaiting_approval ∷ human_assigned ∷ ai_paused ∷ closed ∷ []
allowed_transitions awaiting_approval = ai_active ∷ human_assigned ∷ ai_paused ∷ closed ∷ []
allowed_transitions human_assigned = ai_paused ∷ ai_active ∷ closed ∷ []
allowed_transitions ai_paused = ai_active ∷ human_assigned ∷ closed ∷ []
allowed_transitions closed = []

abbrev pub contains : ConversationState → List ConversationState → Bool
contains t [] = false
contains t (s ∷ ss) = if same_state s t then true else contains t ss

unfoldable pub can_transition : ConversationState → ConversationState → Bool
can_transition current target = contains target (allowed_transitions current)

-- `current in TERMINAL_STATES`
abbrev pub is_terminal : ConversationState → Bool
is_terminal current = same_state current closed

unfoldable pub assert_transition : ConversationState → ConversationState → Result ⊤
assert_transition current target =
    if is_terminal current
    then err conflict
    else if same_state current target
    then err validation_error
    else if can_transition current target
    then ok tt
    else err validation_error

-- `ConversationEvents`, those that an arc is recorded under; `transitioned` is the name of the event
-- of an arc that `TRANSITION_EVENTS` does not list.
pub data EventName : Type 0 where
  ev_ai_paused ev_ai_resumed ev_approved ev_assigned ev_closed : EventName
  ev_escalated ev_first_activated ev_rejected transitioned : EventName

-- `TRANSITION_EVENTS.get((from, to))`
unfoldable pub transition_event : ConversationState → ConversationState → Option EventName
transition_event new ai_active = some ev_first_activated
transition_event new human_assigned = some ev_assigned
transition_event new closed = some ev_closed
transition_event ai_active ai_paused = some ev_ai_paused
transition_event ai_active awaiting_approval = some ev_escalated
transition_event ai_active human_assigned = some ev_assigned
transition_event ai_active closed = some ev_closed
transition_event awaiting_approval ai_active = some ev_approved
transition_event awaiting_approval ai_paused = some ev_ai_paused
transition_event awaiting_approval human_assigned = some ev_rejected
transition_event awaiting_approval closed = some ev_closed
transition_event human_assigned ai_active = some ev_ai_resumed
transition_event human_assigned ai_paused = some ev_ai_paused
transition_event human_assigned closed = some ev_closed
transition_event ai_paused ai_active = some ev_ai_resumed
transition_event ai_paused human_assigned = some ev_assigned
transition_event ai_paused closed = some ev_closed
transition_event new new = none
transition_event new awaiting_approval = none
transition_event new ai_paused = none
transition_event ai_active new = none
transition_event ai_active ai_active = none
transition_event awaiting_approval new = none
transition_event awaiting_approval awaiting_approval = none
transition_event human_assigned new = none
transition_event human_assigned awaiting_approval = none
transition_event human_assigned human_assigned = none
transition_event ai_paused new = none
transition_event ai_paused awaiting_approval = none
transition_event ai_paused ai_paused = none
transition_event closed t = none

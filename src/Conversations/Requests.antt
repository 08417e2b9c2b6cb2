-- ===== src/Conversations/Requests.antt =====
-- The methods of backend/app/modules/conversations/service.py (all but `bulk_update`) as requests,
-- and the routers' part: a request that raises is rolled back.
use engage_os.Base.{ℕ, Bool, List, [], ◌∷◌}
use engage_os.Core.Action.{⊤, Result, ok, err, Action, pure, ◌>>=◌}
use engage_os.Conversations.StateMachine.{ConversationState}
use engage_os.Conversations.Store.{Conversation, conversation_model, Inbox}
use engage_os.Conversations.Service.{
  handle_inbound_message, pause_ai, resume_ai, lock_and_move, assign_found, approve_found,
  force_transition_found, assign, request_approval, approve, reject, close, force_transition,
}
use engage_os.Conversations.Service.Valid.{IsValid}
use engage_os.Conversations.Service.Kept.{Preserves, bind-IsValid, pure-IsValid, valid}

-- A request, with the moment it is served at (`bulk_update`, which writes no audit row, is not one); a role is whether it is the admin's.
pub data Request : Type 0 where
  inbound : ℕ → Request
  pause : ℕ → ℕ → ℕ → Bool → Request
  resume : ℕ → ℕ → Request
  assign_to : ℕ → ℕ → ℕ → ℕ → ℕ → Bool → Request
  ask_approval : ℕ → Request
  approve_it : ℕ → ℕ → Bool → Request
  reject_it : ℕ → ℕ → Bool → Request
  close_it : ℕ → ℕ → ℕ → Bool → Request
  force : ℕ → ConversationState → ℕ → Request

abbrev pub ignore : {A : Type 0} → Action Inbox A → Action Inbox ⊤
ignore m = m >>= λ _. pure tt

unfoldable pub run : Request → Action Inbox ⊤
run (inbound contact_id) = ignore (handle_inbound_message contact_id)
run (pause now i actor_id is_admin) = pause_ai now i actor_id is_admin
run (resume i actor_id) = resume_ai i actor_id
run (assign_to ttl now i agent_id actor_id is_admin) = assign ttl now i agent_id actor_id is_admin
run (ask_approval i) = request_approval i
run (approve_it i actor_id is_admin) = ignore (approve i actor_id is_admin)
run (reject_it i actor_id is_admin) = reject i actor_id is_admin
run (close_it now i actor_id is_admin) = close now i actor_id is_admin
run (force i target actor_id) = force_transition i target actor_id

-- Committed, or rolled back.
abbrev pub outcome : Inbox → Result ⊤ × Inbox → Inbox
outcome s (ok a, s') = s'
outcome s (err e, s') = s

unfoldable pub serve : List Request → Inbox → Inbox
serve [] s = s
serve (r ∷ rs) s = serve rs (outcome s (run r s))

handle_inbound_message-IsValid : (contact_id : ℕ) → Preserves (handle_inbound_message contact_id)
unfolding handle_inbound_message
handle_inbound_message-IsValid contact_id = search valid

pause_ai-IsValid :
    (now i actor_id : ℕ) (is_admin : Bool) → Preserves (pause_ai now i actor_id is_admin)
unfolding pause_ai
pause_ai-IsValid now i actor_id is_admin = search valid

resume_ai-IsValid : (i actor_id : ℕ) → Preserves (resume_ai i actor_id)
unfolding resume_ai
resume_ai-IsValid i actor_id = search valid

lock_and_move-IsValid :
    (ttl now i agent_id actor_id : ℕ) (s : ConversationState)
    → Preserves (lock_and_move ttl now i agent_id actor_id s)
unfolding lock_and_move
lock_and_move-IsValid ttl now i agent_id actor_id s = search valid

assign_found-IsValid :
    (ttl now i agent_id actor_id : ℕ) (is_admin : Bool) (c : Conversation)
    → Preserves (assign_found ttl now i agent_id actor_id is_admin c)
unfolding assign_found
assign_found-IsValid ttl now i agent_id actor_id is_admin c = search (valid, lock_and_move-IsValid)

assign-IsValid :
    (ttl now i agent_id actor_id : ℕ) (is_admin : Bool)
    → Preserves (assign ttl now i agent_id actor_id is_admin)
unfolding assign
assign-IsValid ttl now i agent_id actor_id is_admin = search (valid, assign_found-IsValid)

request_approval-IsValid : (i : ℕ) → Preserves (request_approval i)
unfolding request_approval
request_approval-IsValid i = search valid

approve_found-IsValid :
    (i actor_id : ℕ) (is_admin : Bool) (c : Conversation)
    → Preserves (approve_found i actor_id is_admin c)
unfolding approve_found
approve_found-IsValid i actor_id is_admin c = search valid

approve-IsValid : (i actor_id : ℕ) (is_admin : Bool) → Preserves (approve i actor_id is_admin)
unfolding approve
approve-IsValid i actor_id is_admin = search (valid, approve_found-IsValid)

reject-IsValid : (i actor_id : ℕ) (is_admin : Bool) → Preserves (reject i actor_id is_admin)
unfolding reject
reject-IsValid i actor_id is_admin = search valid

close-IsValid : (now i actor_id : ℕ) (is_admin : Bool) → Preserves (close now i actor_id is_admin)
unfolding close
close-IsValid now i actor_id is_admin = search valid

force_transition_found-IsValid :
    (i : ℕ) (target : ConversationState) (actor_id : ℕ) (c : Conversation)
    → Preserves (force_transition_found i target actor_id c)
unfolding force_transition_found
force_transition_found-IsValid i target actor_id c = search valid

force_transition-IsValid :
    (i : ℕ) (target : ConversationState) (actor_id : ℕ)
    → Preserves (force_transition i target actor_id)
unfolding force_transition
force_transition-IsValid i target actor_id = search (valid, force_transition_found-IsValid)

pub ignore-IsValid : {A : Type 0} (m : Action Inbox A) → Preserves m → Preserves (ignore m)
ignore-IsValid m h = bind-IsValid m (λ a. pure tt) h (λ a. pure-IsValid tt)

pub run-IsValid : (r : Request) → Preserves (run r)
unfolding run
run-IsValid (inbound contact_id) =
    ignore-IsValid (handle_inbound_message contact_id) (handle_inbound_message-IsValid contact_id)
run-IsValid (pause now i actor_id is_admin) = pause_ai-IsValid now i actor_id is_admin
run-IsValid (resume i actor_id) = resume_ai-IsValid i actor_id
run-IsValid (assign_to ttl now i agent_id actor_id is_admin) =
    assign-IsValid ttl now i agent_id actor_id is_admin
run-IsValid (ask_approval i) = request_approval-IsValid i
run-IsValid (approve_it i actor_id is_admin) =
    ignore-IsValid (approve i actor_id is_admin) (approve-IsValid i actor_id is_admin)
run-IsValid (reject_it i actor_id is_admin) = reject-IsValid i actor_id is_admin
run-IsValid (close_it now i actor_id is_admin) = close-IsValid now i actor_id is_admin
run-IsValid (force i target actor_id) = force_transition-IsValid i target actor_id

pub outcome-IsValid :
    (s : Inbox) (p : Result ⊤ × Inbox) → IsValid s → IsValid p.1 → IsValid (outcome s p)
outcome-IsValid s (ok a, s') v v' = v'
outcome-IsValid s (err e, s') v v' = v

-- Whatever requests are served, in whatever order, from valid tables: afterwards the audit trail of
-- every conversation leads, each row from where the one before it ended, from the new state to the
-- state that the conversation is in; and its two lock columns are set together or not at all.
pub serve-IsValid : (rs : List Request) (s : Inbox) → IsValid s → IsValid (serve rs s)
unfolding serve
serve-IsValid [] s v = v
serve-IsValid (r ∷ rs) s v =
    serve-IsValid rs (outcome s (run r s)) (outcome-IsValid s (run r s) v (run-IsValid r s v))

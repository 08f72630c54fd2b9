-- ===== src/State/Tests.antt =====
-- A small tree of agents, and the theorems at it.
use mathlib.Core.Option
use mathlib.Core.List.{Memᴰ}
use agentlayer.Prelude.{◌≡◌, ◌↔◌, refl, String, false, Option, none, some, List, [], ◌∷◌, All}
use agentlayer.Prelude.Json.{str, null}
use agentlayer.Messages.{ModelMessage, user, plain, scalar, entries}
use agentlayer.State.{
  AgentState, agent_state, Fields, fields, no_agents, agent, no_children, approval, PendingToolCall,
  ApprovalRequest, ApprovalDecision, approved, denied, get_agent_state,
  sanitize_state_for_persistence, with_approvals, get_all_pending_approvals, child_state,
  is_approval,
}
use agentlayer.State.Listing.{own_approvals, get_all_pending_approvals-lists}
use agentlayer.State.Sanitize.{IsCleanMessage, get_agent_state-sanitize, sanitize-IsClean}
use agentlayer.State.Fixed.{IsCleanState, sanitize_fixed_iff}
use agentlayer.State.Approvals.{decisions_at, get_agent_state-with_approvals}
use agentlayer.State.Settling.{
  is_settled, IsApplied, with_approvals-IsApplied, with_approvals-settles,
}

abbrev message : ModelMessage
message = record {
  role = user;
  content = plain "hi";
  provider_options =
      some (("openai", entries (("itemId", str "x") ∷ [])) ∷ ("other", scalar null) ∷ []);
}

abbrev request : ApprovalRequest
request = record {
  id = "r";
  tool_name = "bash";
  tool_call_id = "c";
  input = null;
  metadata = none;
  message = none;
}

abbrev waiting : String → PendingToolCall
waiting i = record { tool_call_id = i; tool_name = "bash"; input = null; type = approval request }

abbrev one : String → Fields
one i = record {
  messages = message ∷ [];
  pending_tool_calls = waiting i ∷ [];
  approval_history = [];
  tool_state = none;
  compaction = none;
  context_window_tokens = none;
}

abbrev worker : AgentState
worker = agent_state (one "b") no_agents no_children

abbrev root : AgentState
root = agent_state (one "a") (agent "w" worker no_agents) no_children

abbrev decisions : List ApprovalDecision
decisions =
    record { tool_call_id = "a"; verdict = denied (some "no") }
    ∷ record { tool_call_id = "b"; verdict = approved }
    ∷ []

abbrev at : AgentState → Option AgentState
at s = get_agent_state s ("w" ∷ [])

abbrev or_root : Option AgentState → AgentState
or_root none = root
or_root (some s) = s

all_settled : get_all_pending_approvals (with_approvals root decisions) ≡ []
unfolding get_all_pending_approvals with_approvals
all_settled = refl

sanitized_worker :
    at (sanitize_state_for_persistence root) ≡ some (sanitize_state_for_persistence worker)
unfolding get_agent_state child_state sanitize_state_for_persistence
sanitized_worker = refl

settled_worker :
    at (with_approvals root decisions) ≡ some (or_root (at (with_approvals root decisions)))
unfolding get_agent_state child_state with_approvals
settled_worker = refl

sanitize_fixed_iff_example : (sanitize_state_for_persistence root ≡ root) ↔ IsCleanState root
sanitize_fixed_iff_example = sanitize_fixed_iff root

get_agent_state-sanitize_example :
    get_agent_state (sanitize_state_for_persistence root) ("w" ∷ [])
    ≡ Option.map sanitize_state_for_persistence (get_agent_state root ("w" ∷ []))
get_agent_state-sanitize_example = get_agent_state-sanitize root ("w" ∷ [])

sanitize-IsClean_example :
    All IsCleanMessage (fields (sanitize_state_for_persistence worker)).messages
sanitize-IsClean_example =
    sanitize-IsClean root ("w" ∷ []) (sanitize_state_for_persistence worker) sanitized_worker

get_agent_state-with_approvals_example :
    get_agent_state (with_approvals root decisions) ("w" ∷ [])
    ≡ Option.map
        (λ c. with_approvals c (decisions_at root decisions ("w" ∷ [])))
        (get_agent_state root ("w" ∷ []))
get_agent_state-with_approvals_example = get_agent_state-with_approvals root decisions ("w" ∷ [])

with_approvals-IsApplied_example :
    IsApplied decisions (fields root) (fields (with_approvals root decisions))
with_approvals-IsApplied_example = with_approvals-IsApplied root decisions

with_approvals-settles_example :
    All
      (λ e. is_settled (decisions_at root decisions ("w" ∷ [])) e ≡ false)
      (fields (or_root (at (with_approvals root decisions)))).pending_tool_calls
with_approvals-settles_example =
    with_approvals-settles root decisions ("w" ∷ []) (or_root (at (with_approvals root decisions)))
      settled_worker

worker_found : get_agent_state root ("w" ∷ []) ≡ some worker
unfolding get_agent_state child_state
worker_found = refl

waiting_listed : Memᴰ (waiting "b") (own_approvals worker)
unfolding is_approval
waiting_listed = Memᴰ.head refl

get_all_pending_approvals-lists_example :
    Memᴰ ("w" ∷ [], waiting "b") (get_all_pending_approvals root)
get_all_pending_approvals-lists_example =
    get_all_pending_approvals-lists root worker ("w" ∷ []) (waiting "b") worker_found waiting_listed

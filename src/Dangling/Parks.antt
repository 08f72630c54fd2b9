-- ===== src/Dangling/Parks.antt =====
-- executeDanglingToolCalls of packages/agentlayer-core/src/agent.ts: the entries that one call adds.
use agentlayer.Prelude.{
  String, Bool, true, false, if◌then◌else◌, Option, none, some, List, [], ◌∷◌, ◌++◌, ◌≡◌, refl, ◌⊎◌,
  inl, inr, All, Option-cases,
}
use agentlayer.Prelude.Json.{Json}
use agentlayer.Messages.{ModelMessage}
use agentlayer.State.{AgentState, PendingToolCall, PendingType, approval, stopped, sub_agent}
use agentlayer.Pending.{parse_input}
use agentlayer.Loop.{
  Call, Execution, ToolOutcome, executed, denied, answered, ask, hook_stop, append,
}
use agentlayer.Loop.Phases.{Progress, finished, stop_condition, is_included}
use agentlayer.Execute.{ResolveError}
use agentlayer.Execute.Resolve.{Agent, resolve_tool_call}
use agentlayer.Execute.Answers.{Ensures}
use agentlayer.Dangling.{
  context_of, entry_for, state_entry, Handling, continue, ended, run_ended, resume_sub_agent,
  auto_execute, handle_outcome, handle_entry, handle_parsed, handle_call, merge_hooks, append_to,
}
use agentlayer.Dangling.Growing.{Grows, Grows-refl}
use agentlayer.Dangling.Handled.{IsResumable, state_entry-All}

-- The entry of a stopped call.
abbrev pub stop_entry : Call → Json → Option String → PendingToolCall
stop_entry c input reason = entry_for c input (stopped reason none)

-- The entries that the handling of one call adds: at most one, and it is the call's; where the call
-- stops the run, it is a stopped one, behind the earlier entries.
abbrev pub Parks : Call → List PendingToolCall → Progress → Handling → Type 0
Parks c remaining p (continue remaining' p') =
    (remaining' ≡ remaining)
    ⊎ ((e : PendingToolCall) × (e.tool_call_id ≡ c.tool_call_id)
        × (remaining' ≡ remaining ++ (e ∷ [])))
Parks c remaining p (ended end) =
    (input : Json) × (reason : Option String) × (p' : Progress) × (end
      ≡ finished stop_condition (remaining ++ (stop_entry c input reason ∷ [])) p')
    × Grows p.sink.new_messages p'.sink.new_messages

run_ended-Parks :
    (c : Call) (input : Json) (x : Execution) (pause : Option (String × AgentState))
    (remaining : List PendingToolCall) (p : Progress)
    → Parks c remaining p (run_ended c input x pause remaining p)
run_ended-Parks c input x (some (child_id, child)) remaining p = inr (_, refl, refl)
run_ended-Parks c input x none remaining p = inl refl

included-Grows :
    (included : Bool) (m : ModelMessage) (p : Progress)
    → Grows p.sink.new_messages (if included then append_to m p else p).sink.new_messages
unfolding append
included-Grows true m p = (m ∷ [], refl)
included-Grows false m p = Grows-refl p.sink.new_messages

auto_execute-Parks :
    (c : Call) (input : Json) (remaining : List PendingToolCall) (p : Progress) (o : ToolOutcome)
    → Parks c remaining p (auto_execute c input remaining p o)
unfolding auto_execute merge_hooks append
auto_execute-Parks c input remaining p (hook_stop d options ops) =
    (input, options.reason, _, refl, included-Grows (is_included options) _ _)
auto_execute-Parks c input remaining p (denied d message output) = inl refl
auto_execute-Parks c input remaining p (ask d request) = inl refl
auto_execute-Parks c input remaining p (answered d message output is_error ops) = inl refl
auto_execute-Parks c input remaining p (executed d x) = elim (Option-cases x.stop_requested) [
  | inr (options, s) ↦
      rw (s, Parks)
        (input, options.reason, _, refl, included-Grows (is_included options) x.message p)
  | inl s ↦ rw (s, Parks) (run_ended-Parks c input x x.sub_agent_pause remaining p)
]

resume_sub_agent-Parks :
    (c : Call) (input : Json) (agent_id agent_type : String) (remaining : List PendingToolCall)
    (p : Progress) (o : ToolOutcome)
    → Parks c remaining p (resume_sub_agent c input agent_id agent_type remaining p o)
unfolding resume_sub_agent
resume_sub_agent-Parks c input agent_id agent_type remaining p (executed d x) =
    elim (Option-cases x.sub_agent_pause) [
      | inr (child, s) ↦ rw (s, Parks) (inr (_, refl, refl))
      | inl s ↦ rw (s, Parks) (inl refl)
    ]
resume_sub_agent-Parks c input agent_id agent_type remaining p (denied d message output) = inl refl
resume_sub_agent-Parks c input agent_id agent_type remaining p (ask d request) = inl refl
resume_sub_agent-Parks c input agent_id agent_type remaining p (hook_stop d options ops) = inl refl
resume_sub_agent-Parks c input agent_id agent_type remaining p (answered d message output e ops) =
    inl refl

outcome-Parks :
    (c : Call) (remaining : List PendingToolCall) (p : Progress) (k : ToolOutcome → Handling)
    (r : ResolveError ⊎ ToolOutcome)
    → ((o : ToolOutcome) → Parks c remaining p (k o))
    → Ensures (Parks c remaining p) (handle_outcome k r)
outcome-Parks c remaining p k (inl e) h = tt
outcome-Parks c remaining p k (inr o) h = h o

handle_entry-Parks :
    (a : Agent) (c : Call) (e : PendingToolCall) (type : PendingType)
    (remaining : List PendingToolCall) (p : Progress)
    → e.tool_call_id ≡ c.tool_call_id
    → Ensures (Parks c remaining p) (handle_entry a c e type remaining p)
unfolding handle_entry
handle_entry-Parks a c e (sub_agent agent_id agent_type) remaining p i =
    outcome-Parks c remaining p _ (resolve_tool_call a c (context_of p) true)
      (resume_sub_agent-Parks c e.input agent_id agent_type remaining p)
handle_entry-Parks a c e (approval request) remaining p i = inr (e, i, refl)
handle_entry-Parks a c e (stopped reason suggested) remaining p i = inr (e, i, refl)

handle_parsed-Parks :
    (a : Agent) (c : Call) (input : Option Json) (remaining : List PendingToolCall) (p : Progress)
    → Ensures (Parks c remaining p) (handle_parsed a c input remaining p)
handle_parsed-Parks a c none remaining p = tt
handle_parsed-Parks a c (some input) remaining p =
    outcome-Parks c remaining p _ (resolve_tool_call a c (context_of p) true)
      (auto_execute-Parks c input remaining p)

pub handle_call-Parks :
    (a : Agent) (entries : List PendingToolCall) (c : Call) (entry : Option PendingToolCall)
    (remaining : List PendingToolCall) (p : Progress)
    → All (IsResumable a) entries
    → state_entry c.tool_call_id entries ≡ entry
    → Ensures (Parks c remaining p) (handle_call a c entry remaining p)
handle_call-Parks a entries c none remaining p h e =
    handle_parsed-Parks a c (parse_input a.parse c.input) remaining p
handle_call-Parks a entries c (some entry) remaining p h e =
    handle_entry-Parks a c entry entry.type remaining p
      (state_entry-All (IsResumable a) c.tool_call_id entries entry h e).1

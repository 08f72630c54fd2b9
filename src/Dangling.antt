-- ===== src/Dangling.antt =====
-- executeDanglingToolCalls of packages/agentlayer-core/src/agent.ts: what a resumed run does with the
-- tool calls of its last assistant message that have no result. The messages and the tool state are
-- shared objects in the code, so each call sees what the calls before it left.
pub mod Growing
pub mod Handled
pub mod Resumed
pub mod Parks
pub mod Stopped
mod Tests
use agentlayer.Prelude.{
  String, Bool, true, false, not, Option, none, some, List, [], ◌∷◌, ◌++◌, ◌==◌, ◌⊎◌, inl, inr,
  if◌then◌else◌,
}
use agentlayer.Prelude.Json.{Json}
use agentlayer.Messages.{
  Role, assistant, ModelMessage, Part, PartBody, tool_call, array_parts, build_tool_result_message,
}
use agentlayer.State.{
  AgentState, SubAgents, no_agents, agent, PendingToolCall, PendingType, approval, stopped,
  sub_agent, is_empty,
}
use agentlayer.Pending.{is_role, is_resolved, parse_input}
use agentlayer.Loop.{
  StopOptions, Call, Execution, ToolOutcome, executed, denied, answered, ask, hook_stop, append,
  drain, merge_hook_state_updates, merge_tool_state_updates,
}
use agentlayer.Loop.Phases.{
  Progress, StepEnd, finished, go_on, stop_condition, approval_required, set_agent, drain_into,
  pend, is_included, stop_output,
}
use agentlayer.Execute.{ResolveError, invalid_json, execute_tool_call, ToolCallResult}
use agentlayer.Execute.Resolve.{Agent, CallContext, resolve_tool_call}

-- The last assistant message, and the messages behind it.
unfoldable pub last_assistant : List ModelMessage → Option (ModelMessage × List ModelMessage)
last_assistant [] = none
last_assistant (m ∷ ms) = elim (last_assistant ms) [
  | some found ↦ some found
  | none ↦ if is_role assistant m.role then some (m, ms) else none
]

-- The tool calls among the parts.
unfoldable pub tool_call_parts : List Part → List Call
tool_call_parts [] = []
tool_call_parts (p ∷ ps) =
    let rest = tool_call_parts ps in
    elim p.body [
      | tool_call i name input ↦ record { tool_call_id = i; tool_name = name; input = input } ∷ rest
      | _ ↦ rest
    ]

unfoldable pub without_result : List ModelMessage → List Call → List Call
unfolding is_resolved
without_result later [] = []
without_result later (c ∷ cs) =
    let rest = without_result later cs in
    if is_resolved c.tool_call_id later then rest else c ∷ rest

-- `new Map(...).get(id)`: a later entry with the same id counts.
unfoldable pub state_entry : String → List PendingToolCall → Option PendingToolCall
state_entry i [] = none
state_entry i (e ∷ es) = elim (state_entry i es) [
  | some later ↦ some later
  | none ↦ if e.tool_call_id == i then some e else none
]

-- `delete subAgents[agentId]`
unfoldable pub delete_agent : String → SubAgents → SubAgents
delete_agent i no_agents = no_agents
delete_agent i (agent j s rest) =
    let others = delete_agent i rest in if j == i then others else agent j s others

abbrev pub append_to : ModelMessage → Progress → Progress
append_to message p = record p { sink = append message p.sink }

abbrev pub context_of : Progress → CallContext
context_of p = record { tool_state = p.tool_state; messages = p.sink.all_messages }

unfoldable pub merge_hooks : ToolOutcome → Progress → Progress
unfolding merge_hook_state_updates
merge_hooks o p = record p { tool_state = merge_hook_state_updates (o ∷ []) p.tool_state }

unfoldable pub merge_tools : ToolOutcome → Progress → Progress
unfolding merge_tool_state_updates
merge_tools o p = record p { tool_state = merge_tool_state_updates (o ∷ []) p.tool_state }

-- After one call: the entries that remain pending and the progress, or the end of the run.
pub data Handling : Type 0 where
  continue : List PendingToolCall → Progress → Handling
  ended : StepEnd → Handling

abbrev pub child_paused :
    PendingToolCall → String → AgentState → List PendingToolCall → Progress → Handling
child_paused e agent_id child remaining p =
    continue (remaining ++ (e ∷ []))
      (record p { sub_agents = set_agent agent_id child p.sub_agents })

abbrev pub entry_for : Call → Json → PendingType → PendingToolCall
entry_for c input type = record {
  tool_call_id = c.tool_call_id;
  tool_name = c.tool_name;
  input = input;
  type = type;
}

-- A call whose entry is a paused sub-agent, run again. What a hook does in place of a run leaves
-- neither a result nor an entry.
unfoldable pub resume_sub_agent :
    Call → Json → String → String → List PendingToolCall → Progress → ToolOutcome → Handling
unfolding set_agent delete_agent append drain_into merge_hooks merge_tools
resume_sub_agent c input agent_id agent_type remaining p (executed d x) = elim x.sub_agent_pause [
  | some (child_id, child) ↦
      child_paused (entry_for c input (sub_agent child_id agent_type)) child_id child remaining p
  | none ↦
      let kept = record p { sub_agents = delete_agent agent_id p.sub_agents } in
      continue remaining (
        merge_tools (executed d x)
          (merge_hooks (executed d x) (drain_into x (append_to x.message kept))))
]
resume_sub_agent c input agent_id agent_type remaining p o = continue remaining p

-- The end of the run by ctx.stop: the entries of the calls so far and one for this call.
abbrev pub stop_with : Call → Json → Option String → List PendingToolCall → Progress → Handling
stop_with c input reason remaining p =
    ended (finished stop_condition (remaining ++ (entry_for c input (stopped reason none) ∷ [])) p)

-- An executed call that asks for no stop.
abbrev pub run_ended :
    Call
    → Json
    → Execution
    → Option (String × AgentState)
    → List PendingToolCall
    → Progress
    → Handling
run_ended c input x (some (child_id, child)) remaining p =
    child_paused (entry_for c input (sub_agent child_id c.tool_name)) child_id child remaining p
run_ended c input x none remaining p = continue remaining (drain_into x (append_to x.message p))

-- A call without an entry, which was approved before: the branches on its outcome.
unfoldable pub auto_execute : Call → Json → List PendingToolCall → Progress → ToolOutcome → Handling
unfolding merge_hooks append is_included stop_output build_tool_result_message set_agent drain_into
auto_execute c input remaining p (hook_stop d options ops) =
    let merged = merge_hooks (hook_stop d options ops) p in
    let message =
      build_tool_result_message c.tool_call_id c.tool_name (stop_output options) false in
    stop_with c input options.reason remaining
      (if is_included options then append_to message merged else merged)
auto_execute c input remaining p (executed d x) = elim x.stop_requested [
  | some options ↦
      stop_with c input options.reason remaining
        (if is_included options then append_to x.message p else p)
  | none ↦ run_ended c input x x.sub_agent_pause remaining p
]
auto_execute c input remaining p (answered d message output is_error ops) =
    continue remaining (append_to message (merge_hooks (answered d message output is_error ops) p))
auto_execute c input remaining p (denied d message output) =
    continue remaining (append_to message p)
auto_execute c input remaining p (ask d request) = continue remaining p

abbrev pub handle_outcome :
    (ToolOutcome → Handling) → ResolveError ⊎ ToolOutcome → ResolveError ⊎ Handling
handle_outcome k (inl e) = inl e
handle_outcome k (inr o) = inr (k o)

-- A call with an entry: an approval or a stopped call stays parked.
unfoldable pub handle_entry :
    Agent
    → Call
    → PendingToolCall
    → PendingType
    → List PendingToolCall
    → Progress
    → ResolveError ⊎ Handling
unfolding resolve_tool_call resume_sub_agent
handle_entry a c e (sub_agent agent_id agent_type) remaining p =
    handle_outcome (resume_sub_agent c e.input agent_id agent_type remaining p)
      (resolve_tool_call a c (context_of p) true)
handle_entry a c e (approval request) remaining p = inr (continue (remaining ++ (e ∷ [])) p)
handle_entry a c e (stopped reason suggested) remaining p = inr (continue (remaining ++ (e ∷ [])) p)

abbrev pub handle_parsed :
    Agent → Call → Option Json → List PendingToolCall → Progress → ResolveError ⊎ Handling
handle_parsed a c none remaining p = inl invalid_json
handle_parsed a c (some input) remaining p =
    handle_outcome (auto_execute c input remaining p) (resolve_tool_call a c (context_of p) true)

abbrev pub handle_call :
    Agent
    → Call
    → Option PendingToolCall
    → List PendingToolCall
    → Progress
    → ResolveError ⊎ Handling
handle_call a c (some e) remaining p = handle_entry a c e e.type remaining p
handle_call a c none remaining p = handle_parsed a c (parse_input a.parse c.input) remaining p

-- The loop over the calls.
unfoldable pub handle_calls :
    Agent
    → List PendingToolCall
    → List Call
    → List PendingToolCall
    → Progress
    → ResolveError ⊎ Handling
unfolding state_entry handle_entry parse_input resolve_tool_call auto_execute
handle_calls a entries [] remaining p = inr (continue remaining p)
handle_calls a entries (c ∷ cs) remaining p =
    elim (handle_call a c (state_entry c.tool_call_id entries) remaining p) [
      | inl e ↦ inl e
      | inr (ended end) ↦ inr (ended end)
      | inr (continue remaining' p') ↦ handle_calls a entries cs remaining' p'
    ]

-- With no entries at all every call is executed, without hooks.
unfoldable pub execute_all : Agent → List Call → Progress → ResolveError ⊎ Progress
unfolding execute_tool_call drain append
execute_all a [] p = inr p
execute_all a (c ∷ cs) p = elim (execute_tool_call a.tools c p.tool_state p.sink.all_messages) [
  | inl e ↦ inl e
  | inr r ↦ execute_all a cs (record p { sink = drain r.updates (append r.message p.sink) })
]

pub data DanglingError : Type 0 where
  invalid_messages : DanglingError
  unresolved_call : ResolveError → DanglingError

abbrev pub end_executed : ResolveError ⊎ Progress → DanglingError ⊎ StepEnd
end_executed (inl e) = inl (unresolved_call e)
end_executed (inr p) = inr (go_on p)

-- What remains pending ends the run.
abbrev pub end_remaining : List PendingToolCall → Progress → StepEnd
end_remaining [] p = go_on p
end_remaining (e ∷ es) p = finished approval_required (e ∷ es) p

abbrev pub end_handled : ResolveError ⊎ Handling → DanglingError ⊎ StepEnd
end_handled (inl e) = inl (unresolved_call e)
end_handled (inr (ended end)) = inr end
end_handled (inr (continue remaining p)) = inr (end_remaining remaining p)

-- The calls that have no result, where there are any.
unfoldable pub execute_unresolved :
    Agent → List PendingToolCall → List Call → Progress → DanglingError ⊎ StepEnd
unfolding execute_all handle_calls
execute_unresolved a entries [] p = inr (go_on p)
execute_unresolved a [] (c ∷ cs) p = end_executed (execute_all a (c ∷ cs) p)
execute_unresolved a (e ∷ es) (c ∷ cs) p = end_handled (handle_calls a (e ∷ es) (c ∷ cs) [] p)

-- The last assistant message holds no tool call: an error, unless a message follows.
abbrev pub without_calls : List ModelMessage → Progress → DanglingError ⊎ StepEnd
without_calls [] p = inl invalid_messages
without_calls (m ∷ ms) p = inr (go_on p)

unfoldable pub execute_dangling_tool_calls :
    Agent → List PendingToolCall → Progress → DanglingError ⊎ StepEnd
unfolding last_assistant tool_call_parts without_result execute_unresolved array_parts
execute_dangling_tool_calls a entries p = elim (last_assistant p.sink.all_messages) [
  | none ↦ inr (go_on p)
  | some (m, later) ↦ elim (tool_call_parts (array_parts m)) [
    | [] ↦ without_calls later p
    | c ∷ cs ↦ execute_unresolved a entries (without_result later (c ∷ cs)) p
  ]
]

-- ===== src/Loop/Phases.antt =====
-- The routing of the outcomes of one step in `executeLoop`: the branch for approvals and paused
-- sub-agents, the branch for stops, and the normal path. The three branches run in this order, as
-- the code falls from one to the next.
use agentlayer.Prelude.{
  String, Bool, true, false, not, ◌&&◌, ◌||◌, Option, none, some, List, [], ◌∷◌, ◌++◌, ◌==◌,
  if◌then◌else◌, any, or_else, or_value,
}
use agentlayer.Prelude.Json.{Json, str}
use agentlayer.Messages.{ModelMessage, build_tool_result_message}
use agentlayer.State
use agentlayer.State.{
  AgentState, SubAgents, no_agents, agent, PendingToolCall, PendingType, approval, stopped,
  sub_agent, Verdict, denial_message, is_empty,
}
use agentlayer.Stop.{StepToolResult}
use agentlayer.Loop.{
  StopOptions, Call, Execution, ToolOutcome, executed, denied, answered, ask, hook_stop,
  MessageSink, append, drain, ToolState, merge_hook_state_updates, merge_tool_state_updates,
}

-- What the branches change: the sink, the results of the step, the sub-agents, the tool state.
pub record Progress : Type 0 where
  pub sink : MessageSink
  pub tool_results : List StepToolResult
  pub sub_agents : SubAgents
  pub tool_state : ToolState

pub data FinishReason : Type 0 where
  complete max_steps stop_condition error interrupted approval_required : FinishReason

-- The step ends the run, with the calls that stay pending, or the loop goes on.
pub data StepEnd : Type 0 where
  finished : FinishReason → List PendingToolCall → Progress → StepEnd
  go_on : Progress → StepEnd

-- subAgents[agentId] = childState
unfoldable pub set_agent : String → AgentState → SubAgents → SubAgents
set_agent i s no_agents = agent i s no_agents
set_agent i s (agent j t rest) = if j == i then agent j s rest else agent j t (set_agent i s rest)

-- step.toolResults.push(...) and sink.append(message)
unfoldable pub push_result : Call → Json → Bool → ModelMessage → Progress → Progress
unfolding append
push_result c output is_error message p = record p {
  sink = append message p.sink;
  tool_results =
      p.tool_results
      ++ record {
        tool_call_id = c.tool_call_id;
        tool_name = c.tool_name;
        output = output;
        is_error = is_error;
      }
        ∷ [];
}

unfoldable pub drain_into : Execution → Progress → Progress
drain_into x p = record p { sink = drain x.pending_updates p.sink }

abbrev pub pend : Call → PendingType → PendingToolCall
pend c type = record {
  tool_call_id = c.tool_call_id;
  tool_name = c.tool_name;
  input = c.input;
  type = type;
}

-- classifyOutcomes
unfoldable pub is_ask : ToolOutcome → Bool
is_ask (ask c req) = true
is_ask _ = false

unfoldable pub is_pause : ToolOutcome → Bool
is_pause (executed c x) = elim x.sub_agent_pause [ none ↦ false | some pause ↦ true ]
is_pause _ = false

unfoldable pub find_hook_stop : List ToolOutcome → Option StopOptions
find_hook_stop [] = none
find_hook_stop (hook_stop c opts ops ∷ os) = some opts
find_hook_stop (_ ∷ os) = find_hook_stop os

unfoldable pub exec_stop_options : ToolOutcome → Option StopOptions
exec_stop_options (executed c x) = elim x.sub_agent_pause [
  | none ↦ x.stop_requested
  | some pause ↦ none
]
exec_stop_options _ = none

unfoldable pub find_exec_stop : List ToolOutcome → Option StopOptions
unfolding exec_stop_options
find_exec_stop [] = none
find_exec_stop (o ∷ os) = or_else (exec_stop_options o) (find_exec_stop os)

-- The branch for approvals and pauses: the progress, the calls that stay pending, and the calls
-- whose approval is awaited.
pub record Asking : Type 0 where
  pub progress : Progress
  pub pending_tool_calls : List PendingToolCall
  pub approval_promises : List Call

unfoldable pub ask_pending : Call → PendingType → Asking → Asking
ask_pending c type a = record a { pending_tool_calls = a.pending_tool_calls ++ pend c type ∷ [] }

unfoldable pub asking_step : ToolOutcome → Asking → Asking
unfolding ask_pending push_result drain_into set_agent
asking_step (executed c x) a = elim x.sub_agent_pause [
  | some (agent_id, child) ↦ ask_pending c (sub_agent agent_id c.tool_name) (record a {
    progress = record (a.progress) { sub_agents = set_agent agent_id child a.progress.sub_agents };
  })
  | none ↦ record a {
    progress = drain_into x (push_result c x.output x.is_error x.message a.progress);
  }
]
asking_step (denied c m o) a = record a { progress = push_result c o false m a.progress }
asking_step (answered c m o e ops) a = record a { progress = push_result c o e m a.progress }
asking_step (ask c req) a =
    ask_pending c (approval req) (record a { approval_promises = a.approval_promises ++ c ∷ [] })
asking_step (hook_stop c opts ops) a = ask_pending c (stopped opts.reason none) a

unfoldable pub asking_steps : List ToolOutcome → Asking → Asking
unfolding asking_step
asking_steps [] a = a
asking_steps (o ∷ os) a = asking_steps os (asking_step o a)

abbrev pub is_sub_agent : PendingToolCall → Bool
is_sub_agent e = elim e.type [ sub_agent agent_id type ↦ true | _ ↦ false ]

-- What the environment decides while the loop yields: a verdict for each call that
-- `run.resolveApproval` settled, and the outcome of the call run again without its approval.
pub record InFlight : Type 0 where
  pub verdict : Call → Option Verdict
  pub resolve_again : Call → Progress → ToolOutcome

unfoldable pub is_unresolved : InFlight → Call → Bool
is_unresolved env c = elim (env.verdict c) [ none ↦ true | some v ↦ false ]

-- An approved call is run again; what its hooks answer in place of a run is not recorded.
unfoldable pub rerun : ToolOutcome → Progress → Progress
unfolding push_result drain_into merge_hook_state_updates merge_tool_state_updates
rerun (executed c x) p =
    let o : ToolOutcome = executed c x in
    let p' = drain_into x (push_result c x.output x.is_error x.message p) in
    record p' {
      tool_state =
          merge_tool_state_updates (o ∷ []) (merge_hook_state_updates (o ∷ []) p'.tool_state);
    }
rerun _ p = p

-- An empty reason counts as no reason here.
unfoldable pub in_flight_reason : Option String → Option String
in_flight_reason none = none
in_flight_reason (some reason) = if reason == "" then none else some reason

unfoldable pub settle_promise : InFlight → Call → Progress → Progress
unfolding rerun push_result in_flight_reason denial_message build_tool_result_message
settle_promise env c p = elim (env.verdict c) [
  | none ↦ p
  | some (State.approved) ↦ rerun (env.resolve_again c p) p
  | some (State.denied reason) ↦
      let output = str (denial_message (in_flight_reason reason)) in
      push_result c output false (build_tool_result_message c.tool_call_id c.tool_name output false)
        p
]

unfoldable pub settle_promises : InFlight → List Call → Progress → Progress
unfolding settle_promise
settle_promises env [] p = p
settle_promises env (c ∷ cs) p = settle_promises env cs (settle_promise env c p)

unfoldable pub asking_end : InFlight → Asking → StepEnd
unfolding is_unresolved settle_promises
asking_end env a =
    let has_pauses = any is_sub_agent a.pending_tool_calls in
    let left = finished approval_required a.pending_tool_calls a.progress in
    if has_pauses && is_empty a.approval_promises
    then left
    else if any (is_unresolved env) a.approval_promises || has_pauses
    then left
    else go_on (settle_promises env a.approval_promises a.progress)

unfoldable pub asking_phase : InFlight → List ToolOutcome → Progress → StepEnd
unfolding is_ask is_pause asking_steps asking_end
asking_phase env os p =
    if any is_ask os || any is_pause os
    then asking_end env
        (asking_steps os (record { progress = p; pending_tool_calls = []; approval_promises = [] }))
    else go_on p

-- include !== false
unfoldable pub is_included : StopOptions → Bool
is_included opts = or_value opts.include true

abbrev pub is_dropping : StopOptions → Bool
is_dropping opts = or_value opts.drop_parallel false

pub record Stopping : Type 0 where
  pub progress : Progress
  pub pending_tool_calls : List PendingToolCall

unfoldable pub stop_pending : Call → Option String → Stopping → Stopping
stop_pending c reason a = record a {
  pending_tool_calls = a.pending_tool_calls ++ pend c (stopped reason none) ∷ [];
}

abbrev pub is_appended : Bool → Execution → Bool
is_appended drop_parallel x = elim x.stop_requested [
  | none ↦ not drop_parallel
  | some opts ↦ is_included opts
]

-- stopOptions.output ?? stopOptions.reason ?? 'Tool execution stopped'
unfoldable pub stop_output : StopOptions → Json
stop_output opts = or_value opts.output (str (or_value opts.reason "Tool execution stopped"))

unfoldable pub stopping_step : Bool → ToolOutcome → Stopping → Stopping
unfolding is_included stop_pending stop_output push_result build_tool_result_message
stopping_step drop_parallel (executed c x) a =
    if is_appended drop_parallel x
    then record a { progress = push_result c x.output x.is_error x.message a.progress }
    else stop_pending c (elim x.stop_requested [ none ↦ none | some opts ↦ opts.reason ]) a
stopping_step drop_parallel (hook_stop c opts ops) a =
    if is_included opts && not drop_parallel
    then record a {
      progress =
          push_result c (stop_output opts) false
            (build_tool_result_message c.tool_call_id c.tool_name (stop_output opts) false)
            a.progress;
    }
    else stop_pending c opts.reason a
stopping_step drop_parallel (denied c m o) a =
    if drop_parallel
    then stop_pending c none a
    else record a { progress = push_result c o false m a.progress }
stopping_step drop_parallel (answered c m o e ops) a =
    if drop_parallel
    then stop_pending c none a
    else record a { progress = push_result c o false m a.progress }
stopping_step drop_parallel (ask c req) a = a

unfoldable pub stopping_steps : Bool → List ToolOutcome → Stopping → Stopping
unfolding stopping_step
stopping_steps drop_parallel [] a = a
stopping_steps drop_parallel (o ∷ os) a =
    stopping_steps drop_parallel os (stopping_step drop_parallel o a)

unfoldable pub drain_appended : Bool → List ToolOutcome → Progress → Progress
unfolding is_included drain_into
drain_appended drop_parallel [] p = p
drain_appended drop_parallel (executed c x ∷ os) p =
    drain_appended drop_parallel os (if is_appended drop_parallel x then drain_into x p else p)
drain_appended drop_parallel (_ ∷ os) p = drain_appended drop_parallel os p

unfoldable pub stopping_phase : StopOptions → List ToolOutcome → Progress → StepEnd
unfolding stopping_steps drain_appended
stopping_phase opts os p =
    let a =
      stopping_steps (is_dropping opts) os (record { progress = p; pending_tool_calls = [] }) in
    finished stop_condition a.pending_tool_calls (drain_appended (is_dropping opts) os a.progress)

unfoldable pub normal_step : ToolOutcome → Progress → Progress
unfolding push_result
normal_step (executed c x) p = push_result c x.output x.is_error x.message p
normal_step (denied c m o) p = push_result c o false m p
normal_step (answered c m o e ops) p = push_result c o e m p
normal_step _ p = p

unfoldable pub normal_steps : List ToolOutcome → Progress → Progress
unfolding normal_step
normal_steps [] p = p
normal_steps (o ∷ os) p = normal_steps os (normal_step o p)

unfoldable pub drain_all : List ToolOutcome → Progress → Progress
unfolding drain_into
drain_all [] p = p
drain_all (executed c x ∷ os) p = drain_all os (drain_into x p)
drain_all (_ ∷ os) p = drain_all os p

-- From the classified outcomes to the end of the step, before the late stop conditions.
unfoldable pub route_outcomes : InFlight → List ToolOutcome → Progress → StepEnd
unfolding asking_phase stopping_phase normal_steps drain_all find_hook_stop find_exec_stop
route_outcomes env os p = elim (asking_phase env os p) [
  | finished reason pending p' ↦ finished reason pending p'
  | go_on p' ↦ elim (or_else (find_hook_stop os) (find_exec_stop os)) [
    | some opts ↦ stopping_phase opts os p'
    | none ↦ go_on (drain_all os (normal_steps os p'))
  ]
]

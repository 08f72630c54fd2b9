-- ===== src/Hooks.antt =====
-- packages/agentlayer-core/src/hooks: the chains of hooks around a tool call (approval.ts,
-- pre-tool-use.ts, post-tool-use.ts, results.ts). A hook is a function of its context; while it runs
-- it may read and update the state, so a hook with state access gives a program. A hook that throws
-- ends the run, and is not modelled.
pub mod Replay
pub mod PreRequest
mod Tests
use agentlayer.Prelude.{
  ℕ, String, Bool, true, false, not, ◌||◌, Option, none, some, List, [], ◌∷◌, ◌++◌, ◌==◌,
  if◌then◌else◌, eqb, or_value,
}
use agentlayer.Prelude.Records.{lookup, insert}
use agentlayer.Prelude.Json.{Json, str}
use agentlayer.Messages.{ModelMessage}
use agentlayer.State.{AgentState, ApprovalRequest}
use agentlayer.Loop.{StopOptions, HookStateOperation, ToolState}

-- An input object and which object it is, since the chain compares inputs by `!==`.
pub record InputObject : Type 0 where
  pub identity : ℕ
  pub value : Json

-- What a hook is told of the call.
pub record HookCall : Type 0 where
  pub tool_name : String
  pub tool_call_id : String
  pub input : InputObject
  pub context_window : List ModelMessage

-- What a hook does with getState and updateState before it returns.
pub data HookProgram (R : Type 0) : Type 0 where
  returns : R → HookProgram R
  get_state : String → (Option Json → HookProgram R) → HookProgram R
  update_state : String → (Option Json → Json) → HookProgram R → HookProgram R

pub record HookRun (R : Type 0) : Type 0 where
  pub result : R
  pub local_state : ToolState
  pub state_updates : List HookStateOperation

unfoldable pub run_program :
    {R : Type 0} → HookProgram R → ToolState → List HookStateOperation → HookRun R
run_program (returns r) st ops = record { result = r; local_state = st; state_updates = ops }
run_program (get_state key k) st ops = run_program (k (lookup key st)) st ops
run_program (update_state key updater k) st ops =
    run_program k (insert key (updater (lookup key st)) st)
      (ops ++ (record { key = key; apply = updater } ∷ []))

pub data PreToolUseResult : Type 0 where
  next : Option InputObject → (update_context_window notify_model : Bool) → PreToolUseResult
  tool_result : Json → Bool → PreToolUseResult
  stop : StopOptions → PreToolUseResult

abbrev pub PreToolUseHook : Type 0
PreToolUseHook = HookCall → HookProgram PreToolUseResult

-- The variables of runPreToolUseHooks.
pub record PreChain : Type 0 where
  pub current_input : InputObject
  pub aggregated_update : Bool
  pub aggregated_notify : Bool
  pub state : ToolState
  pub updates : List HookStateOperation

-- The result of a chain in which each hook went on.
unfoldable pub pre_done : HookCall → PreChain → PreToolUseResult
pre_done c s =
    next (if eqb s.current_input.identity c.input.identity then none else some s.current_input)
      s.aggregated_update s.aggregated_notify

-- The variables after a hook that goes on, `none` where its result ends the chain.
unfoldable pub next_chain : PreChain → HookRun PreToolUseResult → Option PreChain
next_chain s r = elim r.result [
  | next new update notify ↦ some (record {
    current_input = or_value new s.current_input;
    aggregated_update = s.aggregated_update || update;
    aggregated_notify = s.aggregated_notify || notify;
    state = r.local_state;
    updates = r.state_updates;
  })
  | _ ↦ none
]

unfoldable pub pre_loop : List PreToolUseHook → HookCall → PreChain → HookRun PreToolUseResult
unfolding run_program pre_done next_chain
pre_loop [] c s = record { result = pre_done c s; local_state = s.state; state_updates = s.updates }
pre_loop (h ∷ hs) c s =
    let r = run_program (h (record c { input = s.current_input })) s.state s.updates in
    elim (next_chain s r) [ none ↦ r | some s' ↦ pre_loop hs c s' ]

abbrev pub first_chain : HookCall → ToolState → PreChain
first_chain c st = record {
  current_input = c.input;
  aggregated_update = false;
  aggregated_notify = false;
  state = st;
  updates = [];
}

unfoldable pub run_pre_tool_use_hooks :
    List PreToolUseHook → HookCall → ToolState → HookRun PreToolUseResult
unfolding pre_loop
run_pre_tool_use_hooks hooks c st = pre_loop hooks c (first_chain c st)

-- What a tool gives back: a value, or what ctx.pauseForSubAgent and ctx.stop return.
pub data RawOutput : Type 0 where
  value : Json → RawOutput
  paused : String → AgentState → RawOutput
  stopped_by : StopOptions → RawOutput
  thrown : String → RawOutput

pub record PostCall : Type 0 where
  pub call : HookCall
  pub output : Json
  pub raw_output : RawOutput

abbrev pub PostToolUseHook : Type 0
PostToolUseHook = PostCall → HookProgram (Option Json)

-- A text takes the place of a text.
unfoldable pub mutate_output : Option Json → Json → Json
mutate_output (some (str new)) (str old) = str new
mutate_output _ output = output

-- `currentOutput !== baseCtx.output`: only a text can have been replaced.
unfoldable pub is_replaced : Json → Json → Bool
is_replaced (str new) (str old) = not (new == old)
is_replaced _ _ = false

unfoldable pub post_loop :
    List PostToolUseHook
    → PostCall
    → Json
    → ToolState
    → List HookStateOperation
    → HookRun (Option Json)
unfolding run_program mutate_output is_replaced
post_loop [] c current st ops = record {
  result = if is_replaced current c.output then some current else none;
  local_state = st;
  state_updates = ops;
}
post_loop (h ∷ hs) c current st ops =
    let r = run_program (h (record c { output = current })) st ops in
    post_loop hs c (mutate_output r.result current) r.local_state r.state_updates

unfoldable pub run_post_tool_use_hooks :
    List PostToolUseHook → PostCall → ToolState → HookRun (Option Json)
unfolding post_loop
run_post_tool_use_hooks hooks c st = post_loop hooks c c.output st []

pub record ApprovalRequestData : Type 0 where
  pub id : Option String
  pub metadata : Option Json
  pub message : Option String

-- What a hook calls in its context: next, deny or ask.
pub data ApprovalAnswer : Type 0 where
  next_hook : ApprovalAnswer
  deny : Option String → ApprovalAnswer
  ask_for : ApprovalRequestData → ApprovalAnswer

pub data ApprovalHookResult : Type 0 where
  proceed : ApprovalHookResult
  denied_for : Option String → ApprovalHookResult
  asks : ApprovalRequest → ApprovalHookResult

abbrev pub ApprovalHook : Type 0
ApprovalHook = HookCall → ApprovalAnswer

unfoldable pub approval_of : HookCall → ApprovalRequestData → ApprovalRequest
approval_of c d = record {
  id = or_value d.id c.tool_call_id;
  tool_name = c.tool_name;
  tool_call_id = c.tool_call_id;
  input = c.input.value;
  metadata = d.metadata;
  message = d.message;
}

unfoldable pub run_approval_hooks : List ApprovalHook → HookCall → ApprovalHookResult
unfolding approval_of
run_approval_hooks [] c = proceed
run_approval_hooks (h ∷ hs) c = elim (h c) [
  | next_hook ↦ run_approval_hooks hs c
  | deny reason ↦ denied_for reason
  | ask_for d ↦ asks (approval_of c d)
]

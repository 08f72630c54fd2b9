-- ===== src/Execute.antt =====
-- packages/agentlayer-core/src/execute-tool-call.ts: the execution of a tool call. A tool is its state
-- key, where it has one, its serializer and the program that it runs; what it does with sub-agents and
-- events is left out. An error that executeToolCall throws is a value of ResolveError.
pub mod Resolve
pub mod Answers
mod Tests
use Prim.Native.String.{◌++◌ as str_append}
use agentlayer.Prelude.{
  String, Bool, true, false, not, ◌&&◌, ◌||◌, Option, none, some, List, [], ◌∷◌, ◌++◌, ◌==◌, ◌⊎◌,
  inl, inr, if◌then◌else◌, any, or_value,
}
use agentlayer.Prelude.Records.{lookup}
use agentlayer.Prelude.Json.{Json, Fields, str, obj, field, end, stringify}
use agentlayer.Messages.{ModelMessage, sanitize_text, sanitize_value, build_tool_result_message}
use agentlayer.State.{AgentState, is_empty}
use agentlayer.Pending.{parse_input}
use agentlayer.Loop.{
  StopOptions, HookStateOperation, ToolState, Call, Execution, ToolOutcome, executed, denied,
  answered, ask, hook_stop, apply_operations,
}
use agentlayer.Hooks.{
  HookCall, InputObject, HookRun, PreToolUseHook, PreToolUseResult, next, tool_result, stop,
  run_pre_tool_use_hooks, RawOutput, value, paused, stopped_by, thrown, PostToolUseHook,
  run_post_tool_use_hooks, ApprovalHook, ApprovalHookResult, proceed, denied_for, asks,
  run_approval_hooks,
}

-- What a tool does with its context before it ends: getToolState, updateToolState,
-- updateContextWindow and stop. Only a tool with a state key has the first two.
pub data ToolProgram : Type 0 where
  ends : RawOutput → ToolProgram
  get_tool_state : (Option Json → ToolProgram) → ToolProgram
  update_tool_state : (Option Json → Json) → ToolProgram → ToolProgram
  update_context_window : (List ModelMessage → List ModelMessage) → ToolProgram → ToolProgram
  request_stop : StopOptions → ToolProgram → ToolProgram

-- `serialize` gives an output, or throws with a message.
pub record Tool : Type 0 where
  pub state_key : Option String
  pub serialize : Option (Json → Json → String ⊎ Json)
  pub execute : Json → List ModelMessage → ToolProgram

-- The variables of executeToolCall while the tool runs.
pub record ToolRun : Type 0 where
  pub tool_state_value : Option Json
  pub state_update : Option Json
  pub pending_updates : List (List ModelMessage → List ModelMessage)
  pub stop_requested : Option StopOptions

unfoldable pub run_tool : ToolProgram → ToolRun → RawOutput × ToolRun
run_tool (ends raw) r = (raw, r)
run_tool (get_tool_state k) r = run_tool (k r.tool_state_value) r
run_tool (update_tool_state updater k) r =
    let next_value = updater r.tool_state_value in
    run_tool k (record r { tool_state_value = some next_value; state_update = some next_value })
run_tool (update_context_window cb k) r =
    run_tool k (record r { pending_updates = r.pending_updates ++ (cb ∷ []) })
run_tool (request_stop options k) r = run_tool k (record r { stop_requested = some options })

abbrev result_types : List String
result_types = "text" ∷ "json" ∷ "execution-denied" ∷ "error-text" ∷ "error-json" ∷ "content" ∷ []

abbrev pub is_result_type : Json → Bool
is_result_type (str t) = any (λ u. u == t) result_types
is_result_type _ = false

unfoldable pub has_result_type : Fields → Bool
has_result_type end = false
has_result_type (field key v fs) =
    let later = has_result_type fs in if key == "type" then is_result_type v else later

unfoldable pub is_tool_result_output : Json → Bool
unfolding has_result_type
is_tool_result_output (obj fs) = has_result_type fs
is_tool_result_output _ = false

abbrev pub text_of : Json → Json
text_of (str s) = str s
text_of v = str (stringify v)

unfoldable pub serialize_output : Tool → Json → Json → String ⊎ Json
unfolding is_tool_result_output
serialize_output t raw input = elim t.serialize [
  | some serialize ↦ serialize raw input
  | none ↦ inr (if is_tool_result_output raw then raw else text_of raw)
]

pub record ToolCallResult : Type 0 where
  pub message : ModelMessage
  pub output : Json
  pub raw_output : RawOutput
  pub is_error : Bool
  pub updates : List (List ModelMessage → List ModelMessage)
  pub requested : Option StopOptions
  pub tool_state_update : Option (String × Json)
  pub sub_agent_pause : Option (String × AgentState)

-- `reason ? sanitizeTextForModelState(reason) : undefined`
unfoldable pub clean_reason : Option String → Option String
unfolding sanitize_text
clean_reason none = none
clean_reason (some reason) = if reason == "" then none else some (sanitize_text reason)

abbrev pub clean_output : Option Json → Option Json
clean_output none = none
clean_output (some output) = some (sanitize_value output)

unfoldable pub clean_options : StopOptions → StopOptions
unfolding clean_reason sanitize_value
clean_options o = record {
  include = o.include;
  output = clean_output o.output;
  drop_parallel = o.drop_parallel;
  reason = clean_reason o.reason;
}

unfoldable pub failure : String → Json
unfolding sanitize_text
failure message = str (sanitize_text (str_append "Tool execution failed: " message))

-- The output, whether it is an error, and the stop that the tool asked for.
pub record Settled : Type 0 where
  pub text : Json
  pub failed : Bool
  pub stop_options : Option StopOptions
  pub pause : Option (String × AgentState)
  pub raw : RawOutput

abbrev pub failed_by : String → Option StopOptions → Settled
failed_by message requested = record {
  text = failure message;
  failed = true;
  stop_options = requested;
  pause = none;
  raw = thrown message;
}

-- The branches on what the tool gave back, and the catch clause.
unfoldable pub settle_output : Tool → Json → RawOutput → Option StopOptions → Settled
unfolding serialize_output clean_options failure sanitize_value
settle_output t input (paused agent_id child) requested = record {
  text = str (str_append (str_append "Sub-agent " agent_id) " paused for approval");
  failed = false;
  stop_options = requested;
  pause = some (agent_id, child);
  raw = paused agent_id child;
}
settle_output t input (stopped_by o) requested = record {
  text =
      or_value (clean_output o.output)
        (str (sanitize_text (or_value o.reason "Tool requested stop")));
  failed = false;
  stop_options = some (clean_options o);
  pause = none;
  raw = stopped_by o;
}
settle_output t input (thrown message) requested = failed_by message requested
settle_output t input (value v) requested = elim (serialize_output t v input) [
  | inl message ↦ failed_by message requested
  | inr output ↦ record {
    text = sanitize_value output;
    failed = false;
    stop_options = requested;
    pause = none;
    raw = value v;
  }
]

abbrev pub keyed : Option String → Option Json → Option (String × Json)
keyed none update = none
keyed (some key) none = none
keyed (some key) (some v) = some (key, v)

pub data ResolveError : Type 0 where
  unknown_tool : String → ResolveError
  invalid_json : ResolveError

abbrev pub state_of : Option String → ToolState → Option Json
state_of none st = none
state_of (some key) st = lookup key st

unfoldable pub call_result : Call → Settled → Tool → ToolRun → ToolCallResult
unfolding build_tool_result_message
call_result c s t r = record {
  message = build_tool_result_message c.tool_call_id c.tool_name s.text s.failed;
  output = s.text;
  raw_output = s.raw;
  is_error = s.failed;
  updates = r.pending_updates;
  requested = s.stop_options;
  tool_state_update = keyed t.state_key r.state_update;
  sub_agent_pause = s.pause;
}

unfoldable pub execute_tool_call :
    (String → Option Tool) → Call → ToolState → List ModelMessage → ResolveError ⊎ ToolCallResult
unfolding run_tool settle_output call_result
execute_tool_call tools c st messages = elim (tools c.tool_name) [
  | none ↦ inl (unknown_tool c.tool_name)
  | some t ↦
      let run = run_tool (t.execute c.input messages) (record {
        tool_state_value = state_of t.state_key st;
        state_update = none;
        pending_updates = [];
        stop_requested = none;
      }) in
      inr (call_result c (settle_output t c.input run.0 run.1.stop_requested) t run.1)
]

-- ===== src/Execute/Tests.antt =====
-- Tool calls that run, for packages/agentlayer-core/src/execute-tool-call.ts and resolveToolCall of
-- agent.ts.
use agentlayer.Prelude.{
  String, Bool, true, false, Option, none, some, [], ◌∷◌, ◌≡◌, refl, inl, inr, ◌==◌, if◌then◌else◌,
}
use agentlayer.Prelude.Records.{lookup}
use agentlayer.Prelude.Json.{Json, str, num}
use agentlayer.Messages.{sanitize_text, sanitize_value, build_tool_result_message}
use agentlayer.Loop.{Call, answered}
use agentlayer.Hooks.{
  returns, tool_result, value, thrown, ApprovalHook, deny, PreToolUseHook, run_pre_tool_use_hooks,
}
use agentlayer.Execute.{
  Tool, ends, update_tool_state, execute_tool_call, ToolCallResult, unknown_tool,
}
use agentlayer.Pending.{parse_input}
use agentlayer.Execute.Resolve.{Agent, CallContext, resolve_tool_call}
use agentlayer.Execute.Answers.{Ensures, IsResolved, resolve_tool_call-IsResolved}

abbrev echo : Tool
echo = record {
  state_key = some "echo";
  serialize = none;
  execute = λ input messages. update_tool_state (λ old. input) (ends (value (str "heard")));
}

abbrev broken : Tool
broken = record {
  state_key = none;
  serialize = none;
  execute = λ input messages. ends (thrown "no disk");
}

abbrev tools : String → Option Tool
tools name = if name == "echo" then some echo else if name == "broken" then some broken else none

abbrev call_to : String → Call
call_to name = record { tool_call_id = "a"; tool_name = name; input = num 3 }

abbrev run_of : String → Option ToolCallResult
run_of name = elim (execute_tool_call tools (call_to name) [] []) [ inl e ↦ none | inr r ↦ some r ]

unknown_throws : execute_tool_call tools (call_to "other") [] [] ≡ inl (unknown_tool "other")
unfolding execute_tool_call
unknown_throws = refl

abbrev update_of : Option ToolCallResult → Option (String × Json)
update_of none = none
update_of (some r) = r.tool_state_update

abbrev error_of : Option ToolCallResult → Option (Bool × Json)
error_of none = none
error_of (some r) = some (r.is_error, r.output)

state_is_updated : update_of (run_of "echo") ≡ some ("echo", num 3)
unfolding execute_tool_call lookup
state_is_updated = refl

failure_is_answered : error_of (run_of "broken") ≡ some (true, str "Tool execution failed: no disk")
unfolding execute_tool_call sanitize_text
failure_is_answered = refl

abbrev refusing : ApprovalHook
refusing c = deny none

abbrev answering : PreToolUseHook
answering c = returns (tool_result (str "cached") false)

abbrev agent : Agent
agent = record {
  tools = tools;
  approval_hooks = refusing ∷ [];
  pre_tool_use = answering ∷ [];
  post_tool_use = [];
  parse = λ s. none;
}

abbrev context : CallContext
context = record { tool_state = []; messages = [] }

hook_answers :
    resolve_tool_call agent (call_to "echo") context true
    ≡ inr (
        answered
          (call_to "echo")
          (build_tool_result_message "a" "echo" (str "cached") false)
          (str "cached")
          false
          [])
unfolding resolve_tool_call run_pre_tool_use_hooks sanitize_value
hook_answers = refl

resolve_tool_call-IsResolved_example :
    Ensures
      (IsResolved (call_to "echo") true)
      (resolve_tool_call agent (call_to "echo") context true)
unfolding parse_input
resolve_tool_call-IsResolved_example =
    resolve_tool_call-IsResolved agent (call_to "echo") context true (num 3) refl

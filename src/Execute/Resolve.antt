-- ===== src/Execute/Resolve.antt =====
-- resolveToolCall and executeWithPostHooks of packages/agentlayer-core/src/agent.ts: from a tool call
-- to its outcome, through the hooks.
use agentlayer.Prelude.{
  String, Bool, true, false, not, ◌&&◌, ◌||◌, Option, none, some, List, [], ◌++◌, ◌⊎◌, inl, inr,
  or_value,
}
use Prim.Native.String.{◌++◌ as str_append}
use agentlayer.Prelude.Json.{Json, str}
use agentlayer.Messages.{ModelMessage, sanitize_text, sanitize_value, build_tool_result_message}
use agentlayer.State.{is_empty}
use agentlayer.Pending.{parse_input}
use agentlayer.Loop.{
  HookStateOperation, ToolState, Call, ToolOutcome, executed, denied, answered, ask, hook_stop,
  apply_operations,
}
use agentlayer.Hooks.{
  HookCall, InputObject, PreToolUseHook, PreToolUseResult, next, tool_result, stop,
  run_pre_tool_use_hooks, PostToolUseHook, run_post_tool_use_hooks, ApprovalHook,
  ApprovalHookResult, proceed, denied_for, asks, run_approval_hooks,
}
use agentlayer.Execute.{
  Tool, ToolCallResult, ResolveError, invalid_json, execute_tool_call, clean_options,
}

-- The tools and hooks of an agent; `parse` is JSON.parse, `none` where it throws.
pub record Agent : Type 0 where
  pub tools : String → Option Tool
  pub approval_hooks : List ApprovalHook
  pub pre_tool_use : List PreToolUseHook
  pub post_tool_use : List PostToolUseHook
  pub parse : String → Option Json

-- The tool state and the messages at the call.
pub record CallContext : Type 0 where
  pub tool_state : ToolState
  pub messages : List ModelMessage

abbrev pub hook_call : Call → Json → CallContext → HookCall
hook_call c input ctx = record {
  tool_name = c.tool_name;
  tool_call_id = c.tool_call_id;
  input = record { identity = 0; value = input };
  context_window = ctx.messages;
}

-- A result whose output a hook replaced.
unfoldable pub replace_output : Call → Option Json → ToolCallResult → ToolCallResult
unfolding sanitize_value build_tool_result_message
replace_output c none r = r
replace_output c (some new) r =
    let output = sanitize_value new in
    record r {
      output = output;
      message = build_tool_result_message c.tool_call_id c.tool_name output false;
    }

-- The hooks after a call that did not fail, from its parsed input on.
unfoldable pub post_hooks :
    Agent
    → Call
    → CallContext
    → List HookStateOperation
    → ToolCallResult
    → Json
    → ToolCallResult × List HookStateOperation
unfolding run_post_tool_use_hooks apply_operations replace_output
post_hooks a c ctx ops r input =
    let chain =
      run_post_tool_use_hooks a.post_tool_use
        (record { call = hook_call c input ctx; output = r.output; raw_output = r.raw_output })
        (apply_operations ops ctx.tool_state) in
    (replace_output c chain.result r, ops ++ chain.state_updates)

abbrev pub parsed_hooks :
    Agent
    → Call
    → CallContext
    → List HookStateOperation
    → ToolCallResult
    → Option Json
    → ResolveError ⊎ (ToolCallResult × List HookStateOperation)
parsed_hooks a c ctx ops r none = inl invalid_json
parsed_hooks a c ctx ops r (some input) = inr (post_hooks a c ctx ops r input)

unfoldable pub execute_with_post_hooks :
    Agent
    → Call
    → CallContext
    → List HookStateOperation
    → ResolveError ⊎ (ToolCallResult × List HookStateOperation)
unfolding execute_tool_call post_hooks parse_input
execute_with_post_hooks a c ctx ops =
    elim (execute_tool_call a.tools c ctx.tool_state ctx.messages) [
      | inl e ↦ inl e
      | inr r ↦ elim (is_empty a.post_tool_use || r.is_error) [
        | true ↦ inr (r, ops)
        | false ↦ parsed_hooks a c ctx ops r (parse_input a.parse c.input)
      ]
    ]

-- The outcome of a call that was executed: `c` holds the parsed input.
abbrev pub executed_with :
    Call
    → Option Json
    → Bool
    → Bool
    → ResolveError ⊎ (ToolCallResult × List HookStateOperation)
    → ResolveError ⊎ ToolOutcome
executed_with c mutated update notify (inl e) = inl e
executed_with c mutated update notify (inr (r, ops)) = inr (
    executed c (record {
      mutated_input = mutated;
      update_context_window = update;
      notify_model = notify;
      message = r.message;
      output = r.output;
      is_error = r.is_error;
      pending_updates = r.updates;
      stop_requested = r.requested;
      tool_state_update = r.tool_state_update;
      hook_state_update = ops;
      sub_agent_pause = r.sub_agent_pause;
    }))

abbrev pub mutated_value : Option InputObject → Option Json
mutated_value none = none
mutated_value (some object) = some object.value

-- The branches on the result of the preToolUse chain: `raw` is the call, `c` has its parsed input.
unfoldable pub after_pre_hooks :
    Agent
    → Call
    → Call
    → CallContext
    → PreToolUseResult
    → List HookStateOperation
    → ResolveError ⊎ ToolOutcome
unfolding execute_with_post_hooks clean_options sanitize_value build_tool_result_message
after_pre_hooks a raw c ctx (tool_result given is_error) ops =
    let output = sanitize_value given in
    inr (
      answered c (build_tool_result_message c.tool_call_id c.tool_name output is_error) output
        is_error ops)
after_pre_hooks a raw c ctx (stop options) ops = inr (hook_stop c (clean_options options) ops)
after_pre_hooks a raw c ctx (next new update notify) ops =
    executed_with c (mutated_value new) update notify (
      execute_with_post_hooks a (record raw { input = or_value (mutated_value new) raw.input }) ctx
        ops)

unfoldable pub after_approval : Agent → Call → Call → CallContext → ResolveError ⊎ ToolOutcome
unfolding run_pre_tool_use_hooks after_pre_hooks execute_with_post_hooks
after_approval a raw c ctx = elim (is_empty a.pre_tool_use) [
  | true ↦ executed_with c none false false (execute_with_post_hooks a raw ctx [])
  | false ↦
      let chain = run_pre_tool_use_hooks a.pre_tool_use (hook_call c c.input ctx) ctx.tool_state in
      after_pre_hooks a raw c ctx chain.result chain.state_updates
]

unfoldable pub denial : Option String → Json
unfolding sanitize_text
denial reason = str (
    sanitize_text (
      str_append "The user denied this tool call with the following message: "
        (or_value reason "Tool execution denied")))

-- The branches on the result of the approval chain.
unfoldable pub after_asking :
    Agent → Call → Call → CallContext → ApprovalHookResult → ResolveError ⊎ ToolOutcome
unfolding after_approval denial build_tool_result_message
after_asking a raw c ctx (denied_for reason) = inr (
    denied c (build_tool_result_message c.tool_call_id c.tool_name (denial reason) false)
      (denial reason))
after_asking a raw c ctx (asks request) = inr (ask c request)
after_asking a raw c ctx proceed = after_approval a raw c ctx

unfoldable pub resolve_parsed :
    Agent → Call → CallContext → Bool → Option Json → ResolveError ⊎ ToolOutcome
unfolding run_approval_hooks after_asking after_approval
resolve_parsed a raw ctx skip_approval none = inl invalid_json
resolve_parsed a raw ctx skip_approval (some input) =
    let c = record raw { input = input } in
    elim (not skip_approval && not (is_empty a.approval_hooks)) [
      | true ↦
          after_asking a raw c ctx (run_approval_hooks a.approval_hooks (hook_call c input ctx))
      | false ↦ after_approval a raw c ctx
    ]

unfoldable pub resolve_tool_call : Agent → Call → CallContext → Bool → ResolveError ⊎ ToolOutcome
unfolding resolve_parsed parse_input
resolve_tool_call a raw ctx skip_approval =
    resolve_parsed a raw ctx skip_approval (parse_input a.parse raw.input)

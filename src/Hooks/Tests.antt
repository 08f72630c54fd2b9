-- ===== src/Hooks/Tests.antt =====
-- Chains of hooks that run, for packages/agentlayer-core/src/hooks.
use agentlayer.Prelude.{Bool, true, false, Option, none, some, [], ◌∷◌, ◌++◌, ◌≡◌, refl, ◌+◌}
use agentlayer.Prelude.Records.{lookup, insert}
use agentlayer.Prelude.Json.{Json, str, num}
use agentlayer.Loop.{apply_operations}
use agentlayer.Hooks.{
  HookCall, returns, get_state, update_state, next, PreToolUseHook, run_pre_tool_use_hooks, value,
  PostCall, PostToolUseHook, run_post_tool_use_hooks, ApprovalHook, next_hook, deny, denied_for,
  run_approval_hooks,
}
use agentlayer.Messages.{ModelMessage, user, plain}
use agentlayer.Hooks.PreRequest.{
  PreRequestHook, next_request, transform, ChainInput, run_pre_request_hooks, prepare_request,
  joined, run_pre_request_hooks-append,
}
use agentlayer.Hooks.Replay.{run_pre_tool_use_hooks-run_post_tool_use_hooks}

abbrev more : Option Json → Json
more (some (num n)) = num (n + 1)
more _ = num 1

abbrev counting : PreToolUseHook
counting c = update_state "calls" more (returns (next none false true))

abbrev renaming : PreToolUseHook
renaming c =
    get_state "calls"
      (λ seen. returns (next (some (record { identity = 1; value = more seen })) true false))

abbrev call : HookCall
call = record {
  tool_name = "read";
  tool_call_id = "a";
  input = record { identity = 0; value = str "x" };
  context_window = [];
}

abbrev marking : PostToolUseHook
marking c = update_state "calls" more (returns (some (str "done")))

abbrev ran : PostCall
ran = record { call = call; output = str "out"; raw_output = value (str "out") }

second_sees_first :
    (run_pre_tool_use_hooks (counting ∷ renaming ∷ []) call []).result
    ≡ next (some (record { identity = 1; value = num 2 })) true true
unfolding run_pre_tool_use_hooks lookup insert
second_sees_first = refl

output_is_replaced : (run_post_tool_use_hooks (marking ∷ []) ran []).result ≡ some (str "done")
unfolding run_post_tool_use_hooks
output_is_replaced = refl

abbrev denying : ApprovalHook
denying c = deny (some "no")

abbrev passing : ApprovalHook
passing c = next_hook

first_answer_counts :
    run_approval_hooks (passing ∷ denying ∷ passing ∷ []) call ≡ denied_for (some "no")
unfolding run_approval_hooks
first_answer_counts = refl

run_pre_tool_use_hooks-run_post_tool_use_hooks_example :
    let r = run_pre_tool_use_hooks (counting ∷ renaming ∷ []) call [] in
    let q = run_post_tool_use_hooks (marking ∷ []) ran (apply_operations r.state_updates []) in
    (apply_operations r.state_updates [] ≡ r.local_state)
    × (apply_operations (r.state_updates ++ q.state_updates) [] ≡ q.local_state)
run_pre_tool_use_hooks-run_post_tool_use_hooks_example =
    run_pre_tool_use_hooks-run_post_tool_use_hooks (counting ∷ renaming ∷ []) (marking ∷ []) call
      ran []

abbrev said : ModelMessage
said = record { role = user; content = plain "hi"; provider_options = none }

abbrev repeating : Bool → PreRequestHook
repeating persist c = transform (c.messages ++ c.messages) persist

abbrev over_limit : PreRequestHook
over_limit c = elim c.context_window_limit [ none ↦ next_request | some limit ↦ transform [] false ]

view_of_one_request :
    prepare_request (repeating false ∷ over_limit ∷ []) (said ∷ []) 7 none
    ≡ record { request_messages = said ∷ said ∷ []; all_messages = said ∷ [] }
unfolding prepare_request
view_of_one_request = refl

any_persist_is_kept :
    prepare_request (repeating true ∷ over_limit ∷ []) (said ∷ []) 7 (some 9)
    ≡ record { request_messages = []; all_messages = [] }
unfolding prepare_request
any_persist_is_kept = refl

abbrev one_said : ChainInput
one_said = record {
  messages = said ∷ [];
  context_window_tokens = none;
  context_window_limit = none;
}

run_pre_request_hooks-append_example :
    let before = run_pre_request_hooks (repeating true ∷ []) one_said in
    run_pre_request_hooks (repeating true ∷ repeating false ∷ []) one_said
    ≡ joined before (
        run_pre_request_hooks
          (repeating false ∷ [])
          (record one_said { messages = before.messages }))
run_pre_request_hooks-append_example =
    run_pre_request_hooks-append (repeating true ∷ []) (repeating false ∷ []) one_said

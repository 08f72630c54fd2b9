-- ===== src/Dangling/Tests.antt =====
-- Resumed runs, for executeDanglingToolCalls of packages/agentlayer-core/src/agent.ts.
use agentlayer.Prelude.{
  false, none, some, List, [], ◌∷◌, ◌≡◌, refl, inl, inr, ◌==◌, if◌then◌else◌, ◌⊎◌,
}
use agentlayer.Prelude.Json.{str, num}
use agentlayer.Messages.{
  ModelMessage, assistant, plain, parts, tool_call, array_parts, sanitize_text, sanitize_value,
  build_tool_result_message,
}
use agentlayer.State.{no_agents, ApprovalRequest, PendingToolCall, approval, stopped}
use agentlayer.Pending.{is_resolved, parse_input}
use agentlayer.Loop.{Call, StopOptions, append, drain}
use agentlayer.Loop.Phases.{Progress, StepEnd, finished, go_on}
use agentlayer.Hooks.{value, stopped_by}
use agentlayer.Execute.{Tool, ends}
use agentlayer.Execute.Resolve.{Agent, resolve_tool_call}
use agentlayer.Dangling.{
  state_entry, entry_for, last_assistant, tool_call_parts, without_result, execute_unresolved,
  execute_dangling_tool_calls, invalid_messages, DanglingError,
}
use agentlayer.Dangling.Stopped.{StopsAt, execute_unresolved-stop}
use agentlayer.Dangling.Resumed.{Accounts, execute_dangling_tool_calls-Accounts}

abbrev options : StopOptions
options = record { include = none; output = none; drop_parallel = none; reason = some "enough" }

abbrev plain_tool : Tool
plain_tool = record {
  state_key = none;
  serialize = none;
  execute = λ input messages. ends (value (str "ran"));
}

abbrev stopping_tool : Tool
stopping_tool = record {
  state_key = none;
  serialize = none;
  execute = λ input messages. ends (stopped_by options);
}

abbrev agent : Agent
agent = record {
  tools = λ name. if name == "halt" then some stopping_tool else some plain_tool;
  approval_hooks = [];
  pre_tool_use = [];
  post_tool_use = [];
  parse = λ s. none;
}

abbrev halt : Call
halt = record { tool_call_id = "a"; tool_name = "halt"; input = num 1 }

abbrev deploy : Call
deploy = record { tool_call_id = "b"; tool_name = "deploy"; input = num 2 }

abbrev request : ApprovalRequest
request = record {
  id = "b";
  tool_name = "deploy";
  tool_call_id = "b";
  input = num 2;
  metadata = none;
  message = none;
}

abbrev waiting : PendingToolCall
waiting = entry_for deploy (num 2) (approval request)

abbrev asked : ModelMessage
asked = record {
  role = assistant;
  content = parts (
      record { body = tool_call "a" "read" (num 1); provider_options = none }
      ∷ record { body = tool_call "b" "deploy" (num 2); provider_options = none }
      ∷ []);
  provider_options = none;
}

abbrev resumed : Progress
resumed = record {
  sink = record { all_messages = asked ∷ []; new_messages = []; run_messages = [] };
  tool_results = [];
  sub_agents = no_agents;
  tool_state = [];
}

abbrev said : ModelMessage
said = record { role = assistant; content = plain "hi"; provider_options = none }

abbrev ended_with_text : Progress
ended_with_text = record resumed {
  sink = record { all_messages = said ∷ []; new_messages = []; run_messages = [] };
}

text_cannot_be_resumed : execute_dangling_tool_calls agent [] ended_with_text ≡ inl invalid_messages
unfolding execute_dangling_tool_calls
text_cannot_be_resumed = refl

abbrev pending_of : DanglingError ⊎ StepEnd → List PendingToolCall
pending_of (inl e) = []
pending_of (inr (go_on p)) = []
pending_of (inr (finished reason es p)) = es

abbrev new_of : DanglingError ⊎ StepEnd → List ModelMessage
new_of (inl e) = []
new_of (inr (go_on p)) = p.sink.new_messages
new_of (inr (finished reason es p)) = p.sink.new_messages

approval_stays :
    pending_of (execute_dangling_tool_calls agent (waiting ∷ []) resumed) ≡ waiting ∷ []
unfolding execute_dangling_tool_calls resolve_tool_call is_resolved sanitize_text sanitize_value
approval_stays = refl

-- With the entry of a stopped call as the only one left, the call that awaits approval is executed.
forgotten_runs :
    new_of (
      execute_unresolved agent
        (entry_for halt (num 1) (stopped (some "enough") none) ∷ [])
        (halt ∷ deploy ∷ [])
        resumed)
    ≡ build_tool_result_message "b" "deploy" (str "ran") false ∷ []
unfolding execute_unresolved resolve_tool_call append drain sanitize_value
forgotten_runs = refl

execute_dangling_tool_calls-Accounts_example :
    Accounts
      (without_result [] (tool_call_parts (array_parts asked)))
      (execute_dangling_tool_calls agent (waiting ∷ []) resumed)
unfolding last_assistant
execute_dangling_tool_calls-Accounts_example =
    execute_dangling_tool_calls-Accounts agent (waiting ∷ []) resumed asked [] (tt, tt) refl

abbrev progress_of : DanglingError ⊎ StepEnd → Progress
progress_of (inl e) = resumed
progress_of (inr (go_on p)) = p
progress_of (inr (finished reason es p)) = p

-- The second call stops; the third one, which awaits approval too, keeps no entry.
abbrev three_calls : List Call
three_calls = deploy ∷ halt ∷ record deploy { tool_call_id = "c" } ∷ []

abbrev entries : List PendingToolCall
entries = waiting ∷ record waiting { tool_call_id = "c" } ∷ []

abbrev left : List PendingToolCall
left = waiting ∷ entry_for halt (num 1) (stopped (some "enough") none) ∷ []

execute_unresolved-stop_example :
    StopsAt three_calls [] left resumed
      (progress_of (execute_unresolved agent entries three_calls resumed))
unfolding execute_unresolved resolve_tool_call state_entry parse_input sanitize_text
execute_unresolved-stop_example =
    execute_unresolved-stop agent waiting (record waiting { tool_call_id = "c" } ∷ []) three_calls
      left resumed (progress_of (execute_unresolved agent entries three_calls resumed))
      (tt, (tt, tt)) refl

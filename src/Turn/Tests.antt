-- ===== src/Turn/Tests.antt =====
-- Steps that run, for `executeLoop` in packages/agentlayer-core/src/agent.ts.
use agentlayer.Prelude.{
  true, false, Option, none, some, List, [], ◌∷◌, ◌≡◌, refl, inl, inr, All, ◌⊎◌,
}
use agentlayer.Prelude.Json.{str, num}
use agentlayer.Messages.{
  ModelMessage, assistant, plain, parts, reasoning, tool_call, sanitize_value,
  build_tool_result_message,
}
use agentlayer.Stop.{max_steps, should_stop}
use agentlayer.State.{no_agents}
use agentlayer.Pending.{is_resolved}
use agentlayer.Loop.{Call, ToolOutcome, append, drain}
use agentlayer.Loop.Phases.{InFlight, complete, stop_condition, FinishReason}
use agentlayer.Hooks.{value}
use agentlayer.Execute.{Tool, ends, ResolveError}
use agentlayer.Execute.Resolve.{Agent, resolve_tool_call}
use agentlayer.Turn.{
  TurnState, ModelResponse, append_response, resolve_all, TurnEnd, turn_ended, next_turn,
  tool_error, check_error, run_turn,
}
use agentlayer.Turn.Progressing.{run_turn-goes_on}

abbrev echo : Tool
echo = record {
  state_key = none;
  serialize = none;
  execute = λ input messages. ends (value (str "ran"));
}

abbrev agent : Agent
agent = record {
  tools = λ name. some echo;
  approval_hooks = [];
  pre_tool_use = [];
  post_tool_use = [];
  parse = λ s. none;
}

abbrev never : InFlight
never = record {
  verdict = λ c. none;
  resolve_again =
      λ c p. ToolOutcome.denied c (build_tool_result_message "" "" (str "") false) (str "");
}

abbrev call : Call
call = record { tool_call_id = "a"; tool_name = "echo"; input = num 1 }

abbrev asking : ModelMessage
asking = record {
  role = assistant;
  content = parts (record { body = tool_call "a" "echo" (num 1); provider_options = none } ∷ []);
  provider_options = none;
}

abbrev response : ModelResponse
response = record { messages = asking ∷ []; tool_calls = call ∷ [] }

abbrev start : TurnState
start = record {
  sink = record { all_messages = []; new_messages = []; run_messages = [] };
  completed_steps = [];
  sub_agents = no_agents;
  tool_state = [];
}

abbrev reason_of : TurnEnd → Option FinishReason
reason_of (turn_ended reason pending t) = some reason
reason_of (next_turn t) = none
reason_of (tool_error e) = none
reason_of check_error = none

abbrev messages_of : TurnEnd → List ModelMessage
messages_of (turn_ended reason pending t) = t.sink.new_messages
messages_of (next_turn t) = t.sink.new_messages
messages_of (tool_error e) = []
messages_of check_error = []

call_is_answered :
    messages_of (run_turn agent [] never response start)
    ≡ asking ∷ build_tool_result_message "a" "echo" (str "ran") false ∷ []
unfolding run_turn resolve_tool_call append drain sanitize_value
call_is_answered = refl

limit_stops :
    reason_of (run_turn agent (max_steps 1 ∷ []) never response start) ≡ some stop_condition
unfolding run_turn should_stop max_steps
limit_stops = refl

text_completes :
    reason_of (
      run_turn agent [] never
        (record {
          messages =
              record { role = assistant; content = plain "hi"; provider_options = none } ∷ [];
          tool_calls = [];
        })
        start)
    ≡ some complete
unfolding run_turn
text_completes = refl

abbrev thinking : ModelMessage
thinking = record {
  role = assistant;
  content = parts (record { body = reasoning "hm"; provider_options = none } ∷ []);
  provider_options = none;
}

reasoning_goes_on :
    reason_of (run_turn agent [] never (record { messages = thinking ∷ []; tool_calls = [] }) start)
    ≡ none
unfolding run_turn
reasoning_goes_on = refl

abbrev outcomes_of : ResolveError ⊎ List ToolOutcome → List ToolOutcome
outcomes_of (inl e) = []
outcomes_of (inr os) = os

run_turn-goes_on_example :
    (t' : TurnState) × (run_turn agent (max_steps 2 ∷ []) never response start ≡ next_turn t')
    × All (λ c. is_resolved c.tool_call_id t'.sink.new_messages ≡ true) (call ∷ [])
unfolding resolve_all resolve_tool_call append_response append should_stop max_steps
run_turn-goes_on_example =
    run_turn-goes_on agent (max_steps 2 ∷ []) never response start
      (outcomes_of
        (resolve_all agent (call ∷ []) (record { tool_state = []; messages = asking ∷ [] })))
      refl refl ((refl, refl), tt) refl refl

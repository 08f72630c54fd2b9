-- ===== src/Loop/Tests.antt =====
-- Steps run through the branches, and the theorems at them.
use agentlayer.Prelude.{
  ◌+◌, ◌*◌, ◌≤◌, ◌≡◌, inr, refl, String, true, false, none, some, List, [], ◌∷◌, map, any,
}
use agentlayer.Prelude.Json.{str, null}
use agentlayer.Messages.{build_tool_result_message}
use agentlayer.State
use agentlayer.State.{ApprovalRequest, PendingToolCall, no_agents, stopped}
use agentlayer.Stop.{StepToolResult}
use agentlayer.Loop.{StopOptions, Call, ToolOutcome, executed, ask, hook_stop}
use agentlayer.Loop.Phases.{
  Progress, StepEnd, finished, go_on, stop_condition, pend, is_ask, InFlight, route_outcomes,
}
use agentlayer.Loop.Partition.{
  results_of, pending_of, calls_of, route_outcomes-partition, route_outcomes-answers,
}
use agentlayer.Loop.Resolved.{answers_of, route_outcomes-repeats}

abbrev call : String → Call
call i = record { tool_call_id = i; tool_name = "bash"; input = null }

abbrev ran : Call → ToolOutcome
ran c = executed c (record {
  mutated_input = none;
  update_context_window = false;
  notify_model = false;
  message = build_tool_result_message c.tool_call_id c.tool_name (str "ok") false;
  output = str "ok";
  is_error = false;
  pending_updates = [];
  stop_requested = none;
  tool_state_update = none;
  hook_state_update = [];
  sub_agent_pause = none;
})

abbrev request : ApprovalRequest
request = record {
  id = "r";
  tool_name = "bash";
  tool_call_id = "b";
  input = null;
  metadata = none;
  message = none;
}

abbrev start : Progress
start = record {
  sink = record { all_messages = []; new_messages = []; run_messages = [] };
  tool_results = [];
  sub_agents = no_agents;
  tool_state = [];
}

-- Every approval is granted while the step waits, or none is.
abbrev granting : InFlight
granting = record { verdict = λ c. some (State.approved); resolve_again = λ c p. ran c }

abbrev silent : InFlight
silent = record { verdict = λ c. none; resolve_again = λ c p. ran c }

abbrev halt : StopOptions
halt = record { include = some false; output = none; drop_parallel = none; reason = some "enough" }

abbrev ids : List StepToolResult → List String
ids = map (λ (r : StepToolResult). r.tool_call_id)

abbrev asked : List ToolOutcome
asked = ran (call "a") ∷ ask (call "b") request ∷ []

abbrev halted : List ToolOutcome
halted = ran (call "a") ∷ hook_stop (call "b") halt [] ∷ []

abbrev both : List ToolOutcome
both = ran (call "a") ∷ ran (call "b") ∷ []

abbrev end_progress : StepEnd → Progress
end_progress (finished reason pending p) = p
end_progress (go_on p) = p

abbrev end_pending : StepEnd → List PendingToolCall
end_pending (finished reason pending p) = pending
end_pending (go_on p) = []

abbrev halted_end : StepEnd
halted_end = route_outcomes silent halted start

abbrev both_end : StepEnd
both_end = route_outcomes silent both start

abbrev granted_end : StepEnd
granted_end = route_outcomes granting asked start

halted_run : halted_end ≡ finished stop_condition (end_pending halted_end) (end_progress halted_end)
unfolding route_outcomes
halted_run = refl

halted_ids :
    (ids (end_progress halted_end).tool_results ≡ "a" ∷ [])
    × (end_pending halted_end ≡ pend (call "b") (stopped (some "enough") none) ∷ [])
unfolding route_outcomes
halted_ids = (refl, refl)

both_run : both_end ≡ go_on (end_progress both_end)
unfolding route_outcomes
both_run = refl

granted_run : granted_end ≡ go_on (end_progress granted_end)
unfolding route_outcomes
granted_run = refl

-- The call that ran beside the approved one is recorded twice.
granted_ids : ids (end_progress granted_end).tool_results ≡ "a" ∷ "b" ∷ "a" ∷ []
unfolding route_outcomes
granted_ids = refl

no_ask : any is_ask halted ≡ false
unfolding is_ask
no_ask = refl

no_ask_both : any is_ask both ≡ false
unfolding is_ask
no_ask_both = refl

some_ask : any is_ask asked ≡ true
unfolding is_ask
some_ask = refl

route_outcomes-partition_example :
    results_of "b" (end_progress halted_end).tool_results + pending_of "b" (end_pending halted_end)
    ≡ results_of "b" start.tool_results + calls_of "b" halted
route_outcomes-partition_example =
    route_outcomes-partition silent halted start stop_condition (end_pending halted_end)
      (end_progress halted_end) halted_run (inr no_ask) "b"

route_outcomes-answers_example :
    results_of "a" (end_progress both_end).tool_results
    ≡ results_of "a" start.tool_results + calls_of "a" both
route_outcomes-answers_example =
    route_outcomes-answers silent both start (end_progress both_end) both_run no_ask_both "a"

route_outcomes-repeats_example :
    results_of "a" start.tool_results + 2 * answers_of "a" asked
    ≤ results_of "a" (end_progress granted_end).tool_results
route_outcomes-repeats_example =
    route_outcomes-repeats granting asked start (end_progress granted_end) granted_run some_ask "a"

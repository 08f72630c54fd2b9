-- ===== src/Stop/Tests.antt =====
-- Runs of the stop conditions, and the theorems at concrete histories.
use agentlayer.Prelude.{
  ◌≡◌, ◌≤◌, ◌↔◌, ◌-◌, refl, Bool, true, false, none, some, String, List, [], ◌∷◌, arith, length,
  drop,
}
use agentlayer.Prelude.Decimal.{decimal}
use agentlayer.Prelude.Json.{str, obj, field, end, stringify}
use agentlayer.Stop.{
  StepToolResult, ToolCall, Step, StopConditionDef, StopResult, after_execution, max_steps,
  total_tool_failures, consecutive_tool_failures, doom_loop, tool_called, should_stop,
}
use agentlayer.Stop.Counting.{failures, total_tool_failures-fires_iff}
use agentlayer.Stop.Conditions.{IsFirst, Repeats, should_stop-IsFirst_iff, doom_loop-fires_iff}

abbrev result : String → Bool → StepToolResult
result name is_error = record {
  tool_call_id = "c";
  tool_name = name;
  output = str "out";
  is_error = is_error;
}

abbrev call : String → ToolCall
call path = record {
  tool_call_id = "c";
  tool_name = "read";
  input = obj (field "path" (str path) end);
}

abbrev step : String → Bool → Step
step path is_error = record {
  tool_calls = call path ∷ [];
  tool_results = result "read" is_error ∷ [];
}

abbrev history : List Step
history = step "b" false ∷ step "a" true ∷ step "a" true ∷ []

abbrev defs : List StopConditionDef
defs = tool_called "read" ∷ max_steps 5 ∷ doom_loop 2 ∷ max_steps 1 ∷ []

abbrev stopped : StopResult
stopped = record {
  name = "doomLoop";
  message = some "Same tool called with identical input 2 times in a row";
}

doom_loop_first : should_stop defs history after_execution ≡ some (some stopped)
unfolding should_stop tool_called max_steps doom_loop stringify decimal
doom_loop_first = refl

consecutive_fires : (consecutive_tool_failures 2 (some "read")).check history ≡ some true
unfolding consecutive_tool_failures
consecutive_fires = refl

total_tool_failures-fires_iff_example :
    ((total_tool_failures 2 none).check history ≡ some true)
    ↔ ((1 ≤ failures none history) × (2 ≤ failures none history))
total_tool_failures-fires_iff_example = total_tool_failures-fires_iff 2 none history

should_stop-IsFirst_iff_example :
    (should_stop defs history after_execution ≡ some (some stopped))
    ↔ IsFirst history after_execution defs stopped
should_stop-IsFirst_iff_example = should_stop-IsFirst_iff defs history after_execution stopped

doom_loop-fires_iff_example :
    ((doom_loop 2).check history ≡ some true)
    ↔ ((2 ≤ length history) × Repeats (drop (length history - 2) history))
doom_loop-fires_iff_example = doom_loop-fires_iff 2 history (omega arith)

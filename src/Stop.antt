-- ===== src/Stop.antt =====
-- packages/agentlayer-core/src/stop-conditions.ts: the conditions that end the agent's loop.
-- A check returns `none` where the source throws. The callback `onTriggered` only observes, and is
-- left out.
pub mod Counting
pub mod Conditions
mod Tests
use Prim.Native.String.{◌++◌ as str_append}
use agentlayer.Prelude.{
  ℕ, zero, suc, ◌+◌, ◌-◌, String, Bool, true, false, not, ◌&&◌, ◌||◌, Option, none, some, List, [],
  ◌∷◌, ◌==◌, leb, ltb, eqb, if◌then◌else◌, length, drop, any, all, keep,
}
use agentlayer.Prelude.Decimal.{decimal}
use agentlayer.Prelude.Json.{Json, stringify}

pub record StepToolResult : Type 0 where
  pub tool_call_id : String
  pub tool_name : String
  pub output : Json
  pub is_error : Bool

pub record ToolCall : Type 0 where
  pub tool_call_id : String
  pub tool_name : String
  pub input : Json

pub record Step : Type 0 where
  pub tool_calls : List ToolCall
  pub tool_results : List StepToolResult

pub data StopTiming : Type 0 where
  before_execution after_execution : StopTiming

pub record StopConditionDef : Type 0 where
  pub name : String
  pub check : List Step → Option Bool
  pub timing : Option StopTiming
  pub message : Option String

pub record StopResult : Type 0 where
  pub name : String
  pub message : Option String

infixr 65 ◌&◌
abbrev ◌&◌ : String → String → String
a & b = str_append a b

-- steps[steps.length - 1]
unfoldable pub last_step : List Step → Option Step
last_step [] = none
last_step (s ∷ []) = some s
last_step (s ∷ t ∷ steps) = last_step (t ∷ steps)

unfoldable pub max_steps : ℕ → StopConditionDef
max_steps n = record {
  name = "maxSteps";
  check = λ steps. some (leb n (length steps));
  timing = none;
  message = some ("Maximum steps (" & decimal n & ") reached");
}

abbrev pub on_last_step : (Step → Bool) → List Step → Bool
on_last_step test steps = elim (last_step steps) [ none ↦ false | some s ↦ test s ]

unfoldable pub tool_called : String → StopConditionDef
unfolding last_step
tool_called tool_name = record {
  name = "toolCalled:" & tool_name;
  check =
      λ steps. some (on_last_step (λ s. any (λ tc. tc.tool_name == tool_name) s.tool_calls) steps);
  timing = some before_execution;
  message = some ("Tool \"" & tool_name & "\" was called");
}

unfoldable pub tool_completed : String → StopConditionDef
unfolding last_step
tool_completed tool_name = record {
  name = "toolCompleted:" & tool_name;
  check = λ steps. some (
      on_last_step (λ s. any (λ tr. tr.tool_name == tool_name && not tr.is_error) s.tool_results)
        steps);
  timing = none;
  message = some ("Tool \"" & tool_name & "\" completed successfully");
}

-- toolName === undefined || tr.toolName === toolName
unfoldable pub is_relevant : Option String → StepToolResult → Bool
is_relevant none tr = true
is_relevant (some tool_name) tr = tr.tool_name == tool_name

-- The inner loop of `totalToolFailures`: the count after a step, or `none` where it returns true.
unfoldable pub count_step : ℕ → Option String → ℕ → List StepToolResult → Option ℕ
unfolding is_relevant
count_step threshold tool_name count [] = some count
count_step threshold tool_name count (tr ∷ trs) =
    let counted = count_step threshold tool_name (count + 1) trs in
    let skipped = count_step threshold tool_name count trs in
    if tr.is_error && is_relevant tool_name tr
    then if leb threshold (count + 1) then none else counted
    else skipped

unfoldable pub count_failures : ℕ → Option String → ℕ → List Step → Bool
unfolding count_step
count_failures threshold tool_name count [] = false
count_failures threshold tool_name count (s ∷ steps) =
    elim (count_step threshold tool_name count s.tool_results) [
      | none ↦ true
      | some count' ↦ count_failures threshold tool_name count' steps
    ]

-- `toolName ? a : b`: the empty name counts as absent.
unfoldable pub if_named {ℓ} : {A : Type ℓ} → Option String → (String → A) → A → A
if_named none a b = b
if_named (some tool_name) a b = if tool_name == "" then b else a tool_name

unfoldable pub total_tool_failures : ℕ → Option String → StopConditionDef
unfolding count_failures if_named
total_tool_failures threshold tool_name = record {
  name = if_named tool_name (λ (n : String). "totalToolFailures:" & n) "totalToolFailures";
  check = λ steps. some (count_failures threshold tool_name 0 steps);
  timing = none;
  message = some (
      if_named tool_name
        (λ (n : String). "Tool \"" & n & "\" failed " & decimal threshold & " time(s) total")
        (decimal threshold & " total tool failure(s) reached"));
}

-- The streak after a step; a step with no relevant result leaves it, and is not tested.
unfoldable pub next_streak : List StepToolResult → ℕ → ℕ
next_streak relevant streak =
    if all (λ tr. tr.is_error) relevant then streak + length relevant else 0

unfoldable pub count_streak : ℕ → Option String → ℕ → List Step → Bool
unfolding is_relevant next_streak
count_streak threshold tool_name streak [] = false
count_streak threshold tool_name streak (s ∷ steps) =
    let relevant = keep (is_relevant tool_name) s.tool_results in
    let skipped = count_streak threshold tool_name streak steps in
    let streak' = next_streak relevant streak in
    let rest = count_streak threshold tool_name streak' steps in
    if eqb (length relevant) 0 then skipped else if leb threshold streak' then true else rest

unfoldable pub consecutive_tool_failures : ℕ → Option String → StopConditionDef
unfolding count_streak if_named
consecutive_tool_failures threshold tool_name = record {
  name =
      if_named tool_name (λ (n : String). "consecutiveToolFailures:" & n) "consecutiveToolFailures";
  check = λ steps. some (count_streak threshold tool_name 0 steps);
  timing = none;
  message = some (decimal threshold & " consecutive tool failure(s)");
}

-- steps.slice(-n); `slice(-0)` is the whole array.
unfoldable pub slice_last : ℕ → List Step → List Step
slice_last n steps = if eqb n 0 then steps else drop (length steps - n) steps

unfoldable pub same_call : ToolCall → Step → Bool
same_call first s = elim s.tool_calls [
  | [] ↦ false
  | tc ∷ _ ↦ tc.tool_name == first.tool_name && stringify tc.input == stringify first.input
]

-- `recent[0]!.toolCalls[0]!` throws where there is no step or no call.
unfoldable pub first_call : List Step → Option ToolCall
first_call [] = none
first_call (s ∷ steps) = elim s.tool_calls [ [] ↦ none | tc ∷ _ ↦ some tc ]

unfoldable pub is_doom_loop : ℕ → List Step → Option Bool
unfolding slice_last same_call first_call
is_doom_loop threshold steps =
    let recent = slice_last threshold steps in
    if ltb (length steps) threshold
    then some false
    else if any (λ (s : Step). not (eqb (length s.tool_calls) 1)) recent
    then some false
    else elim (first_call recent) [ none ↦ none | some first ↦ some (all (same_call first) recent) ]

unfoldable pub doom_loop : ℕ → StopConditionDef
unfolding is_doom_loop
doom_loop threshold = record {
  name = "doomLoop";
  check = is_doom_loop threshold;
  timing = none;
  message = some ("Same tool called with identical input " & decimal threshold & " times in a row");
}

unfoldable pub structured_output_called : StopConditionDef
unfolding tool_called
structured_output_called = tool_called "structured_output"

unfoldable pub is_timing : StopTiming → StopTiming → Bool
is_timing before_execution before_execution = true
is_timing after_execution after_execution = true
is_timing _ _ = false

unfoldable pub timing_or_default : StopConditionDef → StopTiming
timing_or_default def = elim def.timing [ none ↦ after_execution | some t ↦ t ]

-- The result of the first condition that fires, `some none` for null; `none` where a check throws.
unfoldable pub should_stop :
    List StopConditionDef → List Step → StopTiming → Option (Option StopResult)
unfolding is_timing timing_or_default
should_stop [] steps timing = some none
should_stop (def ∷ defs) steps timing =
    let rest = should_stop defs steps timing in
    let found : StopResult = record { name = def.name; message = def.message } in
    if is_timing (timing_or_default def) timing
    then (elim (def.check steps) [
      | none ↦ none
      | some fired ↦ if fired then some (some found) else rest
    ])
    else rest

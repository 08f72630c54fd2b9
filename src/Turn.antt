-- ===== src/Turn.antt =====
-- One step of `executeLoop` in packages/agentlayer-core/src/agent.ts from the model's response on: the
-- messages, the stop conditions before and after the tools, the tool calls and their outcomes. The
-- calls of a step run side by side in the code; here each is resolved from the state before them all,
-- which is what they see, since their updates are merged afterwards.
pub mod Answered
pub mod Settled
pub mod Completed
pub mod Progressing
mod Tests
use agentlayer.Prelude.{
  ℕ, String, Bool, true, false, not, ◌&&◌, ◌||◌, Option, none, some, List, [], ◌∷◌, ◌++◌, map, ◌⊎◌,
  inl, inr, if◌then◌else◌,
}
use agentlayer.Prelude.Json.{Json}
use agentlayer.Prelude.Texts.{trim, trim_start, trim_end}
use agentlayer.Messages.{
  Role, assistant, tool, ModelMessage, Content, plain, parts, Part, PartBody, reasoning, text,
}
use agentlayer.Stop.{
  StepToolResult, ToolCall, Step, StopConditionDef, StopTiming, before_execution, after_execution,
  StopResult, should_stop,
}
use agentlayer.State.{SubAgents, PendingToolCall, is_empty}
use agentlayer.Pending.{is_role}
use agentlayer.Loop.{
  Call, ToolOutcome, MessageSink, append, ToolState, merge_hook_state_updates,
  merge_tool_state_updates, apply_hook_mutation_effects,
}
use agentlayer.Loop.Phases.{
  Progress, FinishReason, complete, stop_condition, StepEnd, finished, go_on, InFlight,
  route_outcomes,
}
use agentlayer.Execute.{ResolveError}
use agentlayer.Execute.Resolve.{Agent, CallContext, resolve_tool_call}

-- What the loop carries from step to step.
pub record TurnState : Type 0 where
  pub sink : MessageSink
  pub completed_steps : List Step
  pub sub_agents : SubAgents
  pub tool_state : ToolState

pub record ModelResponse : Type 0 where
  pub messages : List ModelMessage
  pub tool_calls : List Call

abbrev pub is_blank : String → Bool
is_blank String.[] = true
is_blank (String.◌∷◌ c s) = false

-- A part that a reasoning-only message may hold, and whether it is reasoning.
unfoldable pub part_kind : PartBody → Option Bool
unfolding trim_start trim_end
part_kind (reasoning s) = some true
part_kind (text s) = if is_blank (trim s) then some false else none
part_kind _ = none

unfoldable pub only_reasoning : Bool → List Part → Bool
unfolding part_kind
only_reasoning seen [] = seen
only_reasoning seen (p ∷ ps) = elim (part_kind p.body) [
  | none ↦ false
  | some is_reasoning ↦ only_reasoning (seen || is_reasoning) ps
]

unfoldable pub is_reasoning_only_message : ModelMessage → Bool
unfolding only_reasoning
is_reasoning_only_message m = elim m.content [
  | plain s ↦ false
  | parts ps ↦ is_role assistant m.role && only_reasoning false ps
]

unfoldable pub is_reasoning_only_response : Bool → List ModelMessage → Bool
unfolding is_reasoning_only_message
is_reasoning_only_response seen [] = seen
is_reasoning_only_response seen (m ∷ ms) = elim (is_role tool m.role) [
  | true ↦ is_reasoning_only_response seen ms
  | false ↦ elim (is_reasoning_only_message m) [
    | true ↦ is_reasoning_only_response true ms
    | false ↦ false
  ]
]

-- The response's messages, but those of role `tool`.
unfoldable pub append_response : List ModelMessage → MessageSink → MessageSink
unfolding append
append_response [] s = s
append_response (m ∷ ms) s = append_response ms (if is_role tool m.role then s else append m s)

abbrev pub tool_call_of : Call → ToolCall
tool_call_of c = record { tool_call_id = c.tool_call_id; tool_name = c.tool_name; input = c.input }

unfoldable pub resolve_all : Agent → List Call → CallContext → ResolveError ⊎ List ToolOutcome
unfolding resolve_tool_call
resolve_all a [] ctx = inr []
resolve_all a (c ∷ cs) ctx = elim (resolve_tool_call a c ctx false) [
  | inl e ↦ inl e
  | inr o ↦ elim (resolve_all a cs ctx) [ inl e ↦ inl e | inr os ↦ inr (o ∷ os) ]
]

-- The end of a step: the run ends, the loop goes on, or an error is thrown.
pub data TurnEnd : Type 0 where
  turn_ended : FinishReason → List PendingToolCall → TurnState → TurnEnd
  next_turn : TurnState → TurnEnd
  tool_error : ResolveError → TurnEnd
  check_error : TurnEnd

-- checkStopConditions: the run ends where a condition fires.
unfoldable pub check_stop_conditions :
    List StopConditionDef → List Step → StopTiming → TurnState → TurnEnd → TurnEnd
unfolding should_stop
check_stop_conditions conditions steps timing t later = elim (should_stop conditions steps timing) [
  | none ↦ check_error
  | some none ↦ later
  | some (some found) ↦ turn_ended stop_condition [] t
]

-- The outcomes with their effects on the messages and the tool state. The lists of the sink share
-- their message objects and end alike, so a patched message changes in each of them.
unfoldable pub merged_outcomes : List ToolOutcome → TurnState → List ToolOutcome × Progress
unfolding apply_hook_mutation_effects merge_hook_state_updates merge_tool_state_updates
merged_outcomes os t =
    let effects = apply_hook_mutation_effects t.sink.all_messages os in
    (
      effects.1,
      record {
        sink = record {
          all_messages = effects.0;
          new_messages = (apply_hook_mutation_effects t.sink.new_messages os).0;
          run_messages = (apply_hook_mutation_effects t.sink.run_messages os).0;
        };
        tool_results = [];
        sub_agents = t.sub_agents;
        tool_state =
            merge_tool_state_updates effects.1 (merge_hook_state_updates effects.1 t.tool_state);
      },
    )

abbrev pub turn_of : List Step → List Call → Progress → TurnState
turn_of before calls p = record {
  sink = p.sink;
  completed_steps =
      before
      ++ (record { tool_calls = map tool_call_of calls; tool_results = p.tool_results } ∷ []);
  sub_agents = p.sub_agents;
  tool_state = p.tool_state;
}

-- The end of the step's routing, and the stop conditions behind the tools.
unfoldable pub end_turn : List StopConditionDef → List Step → List Call → StepEnd → TurnEnd
unfolding check_stop_conditions
end_turn conditions before calls (finished reason pending p) =
    turn_ended reason pending (turn_of before calls p)
end_turn conditions before calls (go_on p) =
    let t = turn_of before calls p in
    check_stop_conditions conditions t.completed_steps after_execution t (next_turn t)

abbrev pub route_resolved :
    List StopConditionDef
    → InFlight
    → List Step
    → List Call
    → TurnState
    → ResolveError ⊎ List ToolOutcome
    → TurnEnd
route_resolved conditions env before calls t (inl e) = tool_error e
route_resolved conditions env before calls t (inr os) =
    let merged = merged_outcomes os t in
    end_turn conditions before calls (route_outcomes env merged.0 merged.1)

-- The step, from the response on.
unfoldable pub run_turn :
    Agent → List StopConditionDef → InFlight → ModelResponse → TurnState → TurnEnd
unfolding append_response is_reasoning_only_response check_stop_conditions resolve_all
    merged_outcomes end_turn route_outcomes
run_turn a conditions env response t =
    let sink = append_response response.messages t.sink in
    let answered = record t { sink = sink } in
    let calls = response.tool_calls in
    let started = record answered {
      completed_steps =
          t.completed_steps
          ++ (record { tool_calls = map tool_call_of calls; tool_results = [] } ∷ []);
    } in
    elim (is_empty calls && not (is_reasoning_only_response false response.messages)) [
      | true ↦ turn_ended complete [] answered
      | false ↦ check_stop_conditions conditions started.completed_steps before_execution started (
          route_resolved conditions env t.completed_steps calls answered (
            resolve_all a calls
              (record { tool_state = t.tool_state; messages = sink.all_messages })))
    ]

-- ===== src/Turn/Completed.antt =====
-- A step of `executeLoop` in packages/agentlayer-core/src/agent.ts that goes on leaves no call of it
-- without a result.
use agentlayer.Prelude.{
  true, false, not, ◌&&◌, List, ◌≡◌, refl, sym, inl, inr, arith, All, any, Bool-cases, Option-cases,
}
use agentlayer.Stop.{Step, StopConditionDef, StopTiming, should_stop}
use agentlayer.State.{is_empty}
use agentlayer.Pending.{is_resolved}
use agentlayer.Loop.{Call, ToolOutcome, apply_hook_mutation_effects}
use agentlayer.Loop.Phases.{Progress, StepEnd, finished, go_on, InFlight, is_ask}
use agentlayer.Execute.Resolve.{Agent}
use agentlayer.Turn.{
  TurnState, ModelResponse, append_response, is_reasoning_only_response, resolve_all, TurnEnd,
  next_turn, check_stop_conditions, merged_outcomes, turn_of, end_turn, run_turn,
}
use agentlayer.Turn.Answered.{resolve_all-AllCarry, notified-AllCarry, notified-is_ask}
use agentlayer.Turn.Settled.{route_outcomes-IsResolvedIn}

next_turn_inj : (t t' : TurnState) → next_turn t ≡ next_turn t' → t ≡ t'
next_turn_inj t t' e = cc

-- Past the stop conditions, what comes later is the end.
check_stop_conditions-passed :
    (conditions : List StopConditionDef) (steps : List Step) (timing : StopTiming)
    (t t' : TurnState) (later : TurnEnd)
    → check_stop_conditions conditions steps timing t later ≡ next_turn t'
    → later ≡ next_turn t'
unfolding check_stop_conditions
check_stop_conditions-passed conditions steps timing t t' later h =
    elim (Option-cases (should_stop conditions steps timing)) [
      | inl e ↦ absurd (ground (arith, rw (e, check_stop_conditions) at h))
      | inr (o, e) ↦ elim (Option-cases o) [
        | inl n ↦ rw (e, n, check_stop_conditions) at h
        | inr (found, n) ↦ absurd (ground (arith, rw (e, n, check_stop_conditions) at h))
      ]
    ]

end_turn-IsResolvedIn :
    (conditions : List StopConditionDef) (before : List Step) (calls : List Call) (end : StepEnd)
    (t' : TurnState)
    → end_turn conditions before calls end ≡ next_turn t'
    → (p : Progress) × (end ≡ go_on p) × (t'.sink ≡ p.sink)
unfolding end_turn
end_turn-IsResolvedIn conditions before calls (finished reason pending p) t' h = absurd (cc)
end_turn-IsResolvedIn conditions before calls (go_on p) t' h =
    let q =
      next_turn_inj (turn_of before calls p) t'
        (check_stop_conditions-passed conditions _ _ (turn_of before calls p) t' _ h) in
    (p, refl, rw (sym q) refl)

-- A step in which no outcome of a call asks for an approval, and after which the loop goes on: each
-- call that the model made has a result among the messages of the run, so that it does not count as
-- dangling or pending later.
pub run_turn-IsResolvedIn :
    (a : Agent) (conditions : List StopConditionDef) (env : InFlight) (response : ModelResponse)
    (t t' : TurnState) (os : List ToolOutcome)
    → resolve_all a response.tool_calls (record {
      tool_state = t.tool_state;
      messages = (append_response response.messages t.sink).all_messages;
    })
      ≡ inr os
    → any is_ask os ≡ false
    → run_turn a conditions env response t ≡ next_turn t'
    → All (λ c. is_resolved c.tool_call_id t'.sink.new_messages ≡ true) response.tool_calls
unfolding run_turn merged_outcomes apply_hook_mutation_effects
run_turn-IsResolvedIn a conditions env response t t' os r h e =
    elim (Bool-cases
      (is_empty response.tool_calls && not (is_reasoning_only_response false response.messages))) [
        | inl b ↦ absurd (ground (arith, rw (b, run_turn) at e))
        | inr b ↦
            let started = record t { sink = append_response response.messages t.sink } in
            let passed =
              check_stop_conditions-passed conditions _ _ _ t' _ (rw (b, r, run_turn) at e) in
            let done =
              end_turn-IsResolvedIn conditions t.completed_steps response.tool_calls _ t' passed in
            rw done.2 (
              route_outcomes-IsResolvedIn env response.tool_calls _ _ done.0
                (notified-AllCarry response.tool_calls os
                  (resolve_all-AllCarry a response.tool_calls _ os r))
                (rw (notified-is_ask os) h) done.1)
      ]

-- ===== src/Turn/Progressing.antt =====
-- A step of `executeLoop` in packages/agentlayer-core/src/agent.ts whose calls are all done: none asks
-- for an approval, pauses or stops.
use agentlayer.Prelude.{
  true, false, not, ◌&&◌, none, some, List, [], ◌∷◌, ◌++◌, map, ◌≡◌, refl, inl, inr, All, any,
  Option-cases, Bool-cases,
}
use agentlayer.Stop.{Step, StopConditionDef, before_execution, after_execution, should_stop}
use agentlayer.State.{is_empty}
use agentlayer.Pending.{is_resolved}
use agentlayer.Loop.{
  Call, ToolOutcome, executed, denied, answered, ask, hook_stop, notify_outcome,
  apply_hook_mutation_effects,
}
use agentlayer.Loop.Phases.{
  Progress, go_on, InFlight, is_ask, is_pause, find_hook_stop, find_exec_stop, exec_stop_options,
  asking_phase, normal_steps, drain_all, route_outcomes,
}
use agentlayer.Execute.Resolve.{Agent}
use agentlayer.Turn.{
  tool_call_of, TurnState, ModelResponse, append_response, is_reasoning_only_response, resolve_all,
  next_turn, check_stop_conditions, merged_outcomes, turn_of, end_turn, run_turn,
}
use agentlayer.Turn.Completed.{run_turn-IsResolvedIn}

-- A call that came to its end, and lets the step go on.
abbrev pub IsDone : ToolOutcome → Type 0
IsDone (executed c x) = (x.sub_agent_pause ≡ none) × (x.stop_requested ≡ none)
IsDone (denied c message output) = Unit
IsDone (answered c message output is_error ops) = Unit
IsDone (ask c request) = ⊥
IsDone (hook_stop c options ops) = ⊥

notify_outcome-IsDone : (o : ToolOutcome) → IsDone o → IsDone (notify_outcome o)
unfolding notify_outcome
notify_outcome-IsDone (executed c x) h = elim (Bool-cases x.notify_model) [
  | inr e ↦ rw (e, IsDone, notify_outcome) h
  | inl e ↦ elim (Option-cases x.mutated_input) [
    | inl k ↦ rw (e, k, IsDone, notify_outcome) h
    | inr (new, k) ↦ rw (e, k, IsDone, notify_outcome) h
  ]
]
notify_outcome-IsDone (denied c message output) h = tt
notify_outcome-IsDone (answered c message output is_error ops) h = tt
notify_outcome-IsDone (ask c request) h = h
notify_outcome-IsDone (hook_stop c options ops) h = h

notified-IsDone : (os : List ToolOutcome) → All IsDone os → All IsDone (map notify_outcome os)
notified-IsDone [] h = tt
notified-IsDone (o ∷ os) (h, hs) = (notify_outcome-IsDone o h, notified-IsDone os hs)

-- Calls that are all done take the normal path.
abbrev IsQuiet : List ToolOutcome → Type 0
IsQuiet os =
    (any is_ask os ≡ false)
    × (any is_pause os ≡ false)
    × (find_hook_stop os ≡ none)
    × (find_exec_stop os ≡ none)

done-IsQuiet : (os : List ToolOutcome) → All IsDone os → IsQuiet os
unfolding is_ask is_pause find_hook_stop find_exec_stop exec_stop_options
done-IsQuiet [] h = (refl, refl, refl, refl)
done-IsQuiet (executed c x ∷ os) ((paused, stopped), hs) =
    let q = done-IsQuiet os hs in
    (
      q.0,
      rw (paused, is_pause) q.1,
      q.2,
      rw (paused, stopped, exec_stop_options, find_exec_stop) q.3,
    )
done-IsQuiet (denied c message output ∷ os) (h, hs) = done-IsQuiet os hs
done-IsQuiet (answered c message output is_error ops ∷ os) (h, hs) = done-IsQuiet os hs
done-IsQuiet (ask c request ∷ os) (h, hs) = absurd h
done-IsQuiet (hook_stop c options ops ∷ os) (h, hs) = absurd h

route_outcomes-goes_on :
    (env : InFlight) (os : List ToolOutcome) (p : Progress)
    → All IsDone os
    → route_outcomes env os p ≡ go_on (drain_all os (normal_steps os p))
unfolding route_outcomes asking_phase
route_outcomes-goes_on env os p h =
    let q = done-IsQuiet os h in rw (q.0, q.1, q.2, q.3, asking_phase, route_outcomes) refl

-- The steps that the stop conditions before the tools see.
abbrev pub called_steps : ModelResponse → TurnState → List Step
called_steps response t =
    t.completed_steps
    ++ (record { tool_calls = map tool_call_of response.tool_calls; tool_results = [] } ∷ [])

-- What the loop goes on with: the results and the updates of the calls on their normal path.
abbrev pub done_turn : List Call → ModelResponse → TurnState → List ToolOutcome → TurnState
done_turn calls response t os =
    let merged =
      merged_outcomes os (record t { sink = append_response response.messages t.sink }) in
    turn_of t.completed_steps calls (drain_all merged.0 (normal_steps merged.0 merged.1))

merged-IsDone :
    (os : List ToolOutcome) (t : TurnState) → All IsDone os → All IsDone (merged_outcomes os t).0
unfolding merged_outcomes apply_hook_mutation_effects
merged-IsDone os t h = notified-IsDone os h

run_turn-next :
    (a : Agent) (conditions : List StopConditionDef) (env : InFlight) (response : ModelResponse)
    (t : TurnState) (os : List ToolOutcome)
    → (is_empty response.tool_calls && not (is_reasoning_only_response false response.messages))
      ≡ false
    → resolve_all a response.tool_calls (record {
      tool_state = t.tool_state;
      messages = (append_response response.messages t.sink).all_messages;
    })
      ≡ inr os
    → All IsDone os
    → should_stop conditions (called_steps response t) before_execution ≡ some none
    → should_stop conditions
        (done_turn response.tool_calls response t os).completed_steps
        after_execution
      ≡ some none
    → run_turn a conditions env response t ≡ next_turn (done_turn response.tool_calls response t os)
unfolding run_turn end_turn check_stop_conditions
run_turn-next a conditions env response t os b r done early late =
    let started = record t { sink = append_response response.messages t.sink } in
    let merged = merged_outcomes os started in
    rw
      (
        b,
        early,
        r,
        route_outcomes-goes_on env merged.0 merged.1 (merged-IsDone os started done),
        late,
        run_turn,
        check_stop_conditions,
        end_turn,
      )
      refl

-- A step with calls or with reasoning alone, whose calls are resolved without an error and are all
-- done, where no stop condition fires on the steps with this step's calls, nor behind the tools on the
-- steps with its results: the loop goes on, and each of the calls has a result among the messages of
-- the run.
pub run_turn-goes_on :
    (a : Agent) (conditions : List StopConditionDef) (env : InFlight) (response : ModelResponse)
    (t : TurnState) (os : List ToolOutcome)
    → (is_empty response.tool_calls && not (is_reasoning_only_response false response.messages))
      ≡ false
    → resolve_all a response.tool_calls (record {
      tool_state = t.tool_state;
      messages = (append_response response.messages t.sink).all_messages;
    })
      ≡ inr os
    → All IsDone os
    → should_stop conditions (called_steps response t) before_execution ≡ some none
    → should_stop conditions
        (done_turn response.tool_calls response t os).completed_steps
        after_execution
      ≡ some none
    → (t' : TurnState) × (run_turn a conditions env response t ≡ next_turn t')
      × All (λ c. is_resolved c.tool_call_id t'.sink.new_messages ≡ true) response.tool_calls
run_turn-goes_on a conditions env response t os b r done early late =
    let t' = done_turn response.tool_calls response t os in
    let next = run_turn-next a conditions env response t os b r done early late in
    (
      t',
      next,
      run_turn-IsResolvedIn a conditions env response t t' os r (done-IsQuiet os done).0 next,
    )

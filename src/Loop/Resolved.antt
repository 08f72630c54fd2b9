-- ===== src/Loop/Resolved.antt =====
-- What happens to the other calls of a step whose approvals are all settled while it waits.
use agentlayer.Prelude.{
  ℕ, ◌+◌, ◌*◌, ◌≤◌, String, ◌≡◌, refl, Bool, true, false, ◌&&◌, Option, none, some, List, [], ◌∷◌,
  ◌==◌, if◌then◌else◌, any, or_else, arith,
}
use agentlayer.Loop.{
  StopOptions, Call, ToolOutcome, executed, denied, answered, ask, hook_stop, call_of,
}
use agentlayer.Loop.Phases.{
  Progress, StepEnd, finished, go_on, is_ask, is_pause, find_hook_stop, find_exec_stop, Asking,
  asking_step, asking_steps, InFlight, rerun, settle_promise, settle_promises, asking_end,
  asking_phase, normal_step, normal_steps, drain_all, route_outcomes,
}
use agentlayer.Loop.Partition.{
  results_of, results_of-append, drain_all_count, asking_phase_pauses, stopping_phase_ends,
}

-- The outcomes that already hold what answers their call.
abbrev pub is_answer : ToolOutcome → Bool
is_answer (executed c x) = true
is_answer (denied c m o) = true
is_answer (answered c m o e ops) = true
is_answer (ask c req) = false
is_answer (hook_stop c opts ops) = false

abbrev pub answers_of : String → List ToolOutcome → ℕ
answers_of i [] = 0
answers_of i (o ∷ os) =
    (if is_answer o && (call_of o).tool_call_id == i then 1 else 0) + answers_of i os

module _ (i : String) where
  asking_step_answers :
      (o : ToolOutcome) (a : Asking)
      → is_pause o ≡ false
      → results_of i (asking_step o a).progress.tool_results
        ≡ results_of i a.progress.tool_results + answers_of i (o ∷ [])
  unfolding asking_step is_pause
  asking_step_answers o a h = grind (arith, results_of-append)

  asking_steps_answers :
      (os : List ToolOutcome) (a : Asking)
      → any is_pause os ≡ false
      → results_of i (asking_steps os a).progress.tool_results
        ≡ results_of i a.progress.tool_results + answers_of i os
  unfolding asking_steps
  asking_steps_answers [] a h = omega arith
  asking_steps_answers (o ∷ os) a h =
      ground (arith, asking_steps_answers os (asking_step o a), asking_step_answers o a)

  rerun_le :
      (o : ToolOutcome) (p : Progress)
      → results_of i p.tool_results ≤ results_of i (rerun o p).tool_results
  unfolding rerun
  rerun_le o p = grind (arith, results_of-append)

  settle_promise_le :
      (env : InFlight) (c : Call) (p : Progress)
      → results_of i p.tool_results ≤ results_of i (settle_promise env c p).tool_results
  unfolding settle_promise
  settle_promise_le env c p = grind (arith, results_of-append, rerun_le)

  settle_promises_le :
      (env : InFlight) (cs : List Call) (p : Progress)
      → results_of i p.tool_results ≤ results_of i (settle_promises env cs p).tool_results
  unfolding settle_promises
  settle_promises_le env [] p = omega arith
  settle_promises_le env (c ∷ cs) p =
      omega (arith, settle_promise_le env c p, settle_promises_le env cs (settle_promise env c p))

  normal_step_answers :
      (o : ToolOutcome) (p : Progress)
      → results_of i (normal_step o p).tool_results
        ≡ results_of i p.tool_results + answers_of i (o ∷ [])
  unfolding normal_step
  normal_step_answers o p = grind (arith, results_of-append)

  normal_steps_answers :
      (os : List ToolOutcome) (p : Progress)
      → results_of i (normal_steps os p).tool_results
        ≡ results_of i p.tool_results + answers_of i os
  unfolding normal_steps
  normal_steps_answers [] p = omega arith
  normal_steps_answers (o ∷ os) p =
      omega (arith, normal_steps_answers os (normal_step o p), normal_step_answers o p)

  asking_end_le :
      (env : InFlight) (a : Asking) (p' : Progress)
      → asking_end env a ≡ go_on p'
      → results_of i a.progress.tool_results ≤ results_of i p'.tool_results
  unfolding asking_end
  asking_end_le env a p' h = ground (arith, settle_promises_le env a.approval_promises a.progress)

  asking_phase_answers :
      (env : InFlight) (os : List ToolOutcome) (p p' : Progress)
      → asking_phase env os p ≡ go_on p'
      → any is_ask os ≡ true
      → results_of i p.tool_results + answers_of i os ≤ results_of i p'.tool_results
  unfolding asking_phase
  asking_phase_answers env os p p' h k =
      let a : Asking = record { progress = p; pending_tool_calls = []; approval_promises = [] } in
      ground (
        arith,
        asking_steps_answers os a (asking_phase_pauses env os p p' h),
        asking_end_le env (asking_steps os a) p',
      )

-- Where a step asks for approvals and all of them are settled in flight, so that the loop goes on,
-- every other call that its outcomes answer (run, denied, or answered by a hook) is recorded as a
-- result at least twice.
pub route_outcomes-repeats :
    (env : InFlight) (os : List ToolOutcome) (p p' : Progress)
    → route_outcomes env os p ≡ go_on p'
    → any is_ask os ≡ true
    → (i : String)
    → results_of i p.tool_results + 2 * answers_of i os ≤ results_of i p'.tool_results
unfolding route_outcomes
route_outcomes-repeats env os p p' h k i =
    go (asking_phase env os p) refl (or_else (find_hook_stop os) (find_exec_stop os)) refl
  where
    go :
        (e : StepEnd)
        → asking_phase env os p ≡ e
        → (o : Option StopOptions) → or_else (find_hook_stop os) (find_exec_stop os) ≡ o
        → results_of i p.tool_results + 2 * answers_of i os ≤ results_of i p'.tool_results
    go (finished r q b) x o y = absurd (ground (arith, x, h))
    go (go_on b) x (some opts) y =
        absurd (ground (arith, x, y, h, stopping_phase_ends opts os b p'))
    go (go_on b) x none y =
        let end : go_on (drain_all os (normal_steps os b)) ≡ go_on p' = ground (arith, x, y, h) in
        ground (
          arith,
          end,
          drain_all_count i os (normal_steps os b),
          normal_steps_answers i os b,
          asking_phase_answers i env os p b x k,
        )

-- ===== src/Loop/Partition.antt =====
-- How the branches of a step account for its calls: counts of results, pending entries and outcomes.
use agentlayer.Prelude.{
  ℕ, ◌+◌, String, ◌≡◌, ◌≢◌, ◌||◌, ◌⊎◌, inl, inr, refl, Bool, false, Option, none, some, List, [],
  ◌∷◌, ◌++◌, ◌==◌, if◌then◌else◌, any, or_else, arith,
}
use agentlayer.State.{PendingToolCall}
use agentlayer.Stop.{StepToolResult}
use agentlayer.Loop.{StopOptions, ToolOutcome, executed, denied, answered, ask, hook_stop, call_of}
use agentlayer.Loop.Phases.{
  Progress, FinishReason, approval_required, stop_condition, is_pause, is_sub_agent, StepEnd,
  finished, go_on, drain_into, is_ask, find_hook_stop, find_exec_stop, Asking, asking_step,
  asking_steps, InFlight, asking_end, asking_phase, Stopping, stopping_step, stopping_steps,
  drain_appended, is_appended, stopping_phase, is_dropping, normal_step, normal_steps, drain_all,
  route_outcomes,
}

-- How often the call `i` stands among results, pending entries and outcomes.
abbrev pub results_of : String → List StepToolResult → ℕ
results_of i [] = 0
results_of i (r ∷ rs) = (if r.tool_call_id == i then 1 else 0) + results_of i rs

abbrev pub pending_of : String → List PendingToolCall → ℕ
pending_of i [] = 0
pending_of i (e ∷ es) = (if e.tool_call_id == i then 1 else 0) + pending_of i es

abbrev pub calls_of : String → List ToolOutcome → ℕ
calls_of i [] = 0
calls_of i (o ∷ os) = (if (call_of o).tool_call_id == i then 1 else 0) + calls_of i os

module _ (i : String) where
  pub results_of-append :
      (rs ts : List StepToolResult) → results_of i (rs ++ ts) ≡ results_of i rs + results_of i ts
  results_of-append [] ts = omega arith
  results_of-append (r ∷ rs) ts = omega (arith, results_of-append rs ts)

  pub pending_of-append :
      (es fs : List PendingToolCall) → pending_of i (es ++ fs) ≡ pending_of i es + pending_of i fs
  pending_of-append [] fs = omega arith
  pending_of-append (e ∷ es) fs = omega (arith, pending_of-append es fs)

  pub asking_step_count :
      (o : ToolOutcome) (a : Asking)
      → results_of i (asking_step o a).progress.tool_results
          + pending_of i (asking_step o a).pending_tool_calls
        ≡ results_of i a.progress.tool_results
          + pending_of i a.pending_tool_calls
          + calls_of i (o ∷ [])
  unfolding asking_step
  asking_step_count o a = grind (arith, results_of-append, pending_of-append)

  pub asking_steps_count :
      (os : List ToolOutcome) (a : Asking)
      → results_of i (asking_steps os a).progress.tool_results
          + pending_of i (asking_steps os a).pending_tool_calls
        ≡ results_of i a.progress.tool_results + pending_of i a.pending_tool_calls + calls_of i os
  unfolding asking_steps
  asking_steps_count [] a = omega arith
  asking_steps_count (o ∷ os) a =
      omega (arith, asking_steps_count os (asking_step o a), asking_step_count o a)

  stopping_step_count :
      (drop_parallel : Bool) (o : ToolOutcome) (a : Stopping)
      → is_ask o ≡ false
      → results_of i (stopping_step drop_parallel o a).progress.tool_results
          + pending_of i (stopping_step drop_parallel o a).pending_tool_calls
        ≡ results_of i a.progress.tool_results
          + pending_of i a.pending_tool_calls
          + calls_of i (o ∷ [])
  unfolding stopping_step is_ask
  stopping_step_count drop_parallel o a h = grind (arith, results_of-append, pending_of-append)

  stopping_steps_count :
      (drop_parallel : Bool) (os : List ToolOutcome) (a : Stopping)
      → any is_ask os ≡ false
      → results_of i (stopping_steps drop_parallel os a).progress.tool_results
          + pending_of i (stopping_steps drop_parallel os a).pending_tool_calls
        ≡ results_of i a.progress.tool_results + pending_of i a.pending_tool_calls + calls_of i os
  unfolding stopping_steps
  stopping_steps_count drop_parallel [] a h = omega arith
  stopping_steps_count drop_parallel (o ∷ os) a h = ground (
    arith,
    stopping_steps_count drop_parallel os (stopping_step drop_parallel o a),
    stopping_step_count drop_parallel o a,
  )

  drain_appended_count :
      (drop_parallel : Bool) (os : List ToolOutcome) (p : Progress)
      → (drain_appended drop_parallel os p).tool_results ≡ p.tool_results
  unfolding drain_appended
  drain_appended_count drop_parallel [] p = refl
  drain_appended_count drop_parallel (executed c x ∷ os) p = ground (
    arith,
    drain_appended_count drop_parallel os
        (if is_appended drop_parallel x then drain_into x p else p),
  )
  drain_appended_count drop_parallel (denied c m o ∷ os) p = drain_appended_count drop_parallel os p
  drain_appended_count drop_parallel (answered c m o e ops ∷ os) p =
      drain_appended_count drop_parallel os p
  drain_appended_count drop_parallel (ask c req ∷ os) p = drain_appended_count drop_parallel os p
  drain_appended_count drop_parallel (hook_stop c opts ops ∷ os) p =
      drain_appended_count drop_parallel os p

  pub drain_all_count :
      (os : List ToolOutcome) (p : Progress) → (drain_all os p).tool_results ≡ p.tool_results
  unfolding drain_all
  drain_all_count [] p = refl
  drain_all_count (executed c x ∷ os) p = ground (arith, drain_all_count os (drain_into x p))
  drain_all_count (denied c m o ∷ os) p = drain_all_count os p
  drain_all_count (answered c m o e ops ∷ os) p = drain_all_count os p
  drain_all_count (ask c req ∷ os) p = drain_all_count os p
  drain_all_count (hook_stop c opts ops ∷ os) p = drain_all_count os p

  -- What the normal path records for an outcome.
  normal_step_count :
      (o : ToolOutcome) (p : Progress)
      → is_ask o ≡ false
      → find_hook_stop (o ∷ []) ≡ none
      → results_of i (normal_step o p).tool_results
        ≡ results_of i p.tool_results + calls_of i (o ∷ [])
  unfolding normal_step is_ask find_hook_stop
  normal_step_count o p h k = grind (arith, results_of-append)

  hook_stop_parts :
      (o : ToolOutcome) (os : List ToolOutcome)
      → find_hook_stop (o ∷ os) ≡ none
      → (find_hook_stop (o ∷ []) ≡ none) × (find_hook_stop os ≡ none)
  unfolding find_hook_stop
  hook_stop_parts o os h = ground arith

  normal_steps_count :
      (os : List ToolOutcome) (p : Progress)
      → any is_ask os ≡ false
      → find_hook_stop os ≡ none
      → results_of i (normal_steps os p).tool_results ≡ results_of i p.tool_results + calls_of i os
  unfolding normal_steps
  normal_steps_count [] p h k = omega arith
  normal_steps_count (o ∷ os) p h k = ground (
    arith,
    hook_stop_parts o os k,
    normal_steps_count os (normal_step o p),
    normal_step_count o p,
  )

  asking_end_count :
      (env : InFlight) (a : Asking) (reason : FinishReason) (pending : List PendingToolCall)
      (p' : Progress)
      → asking_end env a ≡ finished reason pending p'
      → results_of i p'.tool_results + pending_of i pending
        ≡ results_of i a.progress.tool_results + pending_of i a.pending_tool_calls
  unfolding asking_end
  asking_end_count env a reason pending p' h = ground arith

  asking_phase_count :
      (env : InFlight) (os : List ToolOutcome) (p : Progress) (reason : FinishReason)
      (pending : List PendingToolCall) (p' : Progress)
      → asking_phase env os p ≡ finished reason pending p'
      → results_of i p'.tool_results + pending_of i pending
        ≡ results_of i p.tool_results + calls_of i os
  unfolding asking_phase
  asking_phase_count env os p reason pending p' h =
      let a : Asking = record { progress = p; pending_tool_calls = []; approval_promises = [] } in
      ground
        (arith, asking_steps_count os a, asking_end_count env (asking_steps os a) reason pending p')

  stopping_phase_count :
      (opts : StopOptions) (os : List ToolOutcome) (p : Progress) (reason : FinishReason)
      (pending : List PendingToolCall) (p' : Progress)
      → any is_ask os ≡ false
      → stopping_phase opts os p ≡ finished reason pending p'
      → results_of i p'.tool_results + pending_of i pending
        ≡ results_of i p.tool_results + calls_of i os
  unfolding stopping_phase
  stopping_phase_count opts os p reason pending p' h k =
      let a : Stopping = record { progress = p; pending_tool_calls = [] } in
      let b = stopping_steps (is_dropping opts) os a in
      ground (
        arith,
        stopping_steps_count (is_dropping opts) os a h,
        drain_appended_count (is_dropping opts) os b.progress,
      )

any-append :
    (es fs : List PendingToolCall)
    → any is_sub_agent (es ++ fs) ≡ (any is_sub_agent es || any is_sub_agent fs)
any-append [] fs = refl
any-append (e ∷ es) fs = ground (arith, any-append es fs)

asking_step_pauses :
    (o : ToolOutcome) (a : Asking)
    → any is_sub_agent (asking_step o a).pending_tool_calls
      ≡ (any is_sub_agent a.pending_tool_calls || is_pause o)
unfolding asking_step is_pause
asking_step_pauses o a = grind (arith, any-append)

asking_steps_pauses :
    (os : List ToolOutcome) (a : Asking)
    → any is_sub_agent (asking_steps os a).pending_tool_calls
      ≡ (any is_sub_agent a.pending_tool_calls || any is_pause os)
unfolding asking_steps
asking_steps_pauses [] a = ground arith
asking_steps_pauses (o ∷ os) a =
    ground (arith, asking_steps_pauses os (asking_step o a), asking_step_pauses o a)

asking_end_pauses :
    (env : InFlight) (a : Asking) (p' : Progress)
    → asking_end env a ≡ go_on p'
    → any is_sub_agent a.pending_tool_calls ≡ false
unfolding asking_end
asking_end_pauses env a p' h = ground arith

-- Where the loop goes on past the branch for approvals, no sub-agent has paused.
pub asking_phase_pauses :
    (env : InFlight) (os : List ToolOutcome) (p p' : Progress)
    → asking_phase env os p ≡ go_on p'
    → any is_pause os ≡ false
unfolding asking_phase
asking_phase_pauses env os p p' h =
    let a : Asking = record { progress = p; pending_tool_calls = []; approval_promises = [] } in
    ground (arith, asking_steps_pauses os a, asking_end_pauses env (asking_steps os a) p')

pub asking_phase_plain :
    (env : InFlight) (os : List ToolOutcome) (p p' : Progress)
    → any is_ask os ≡ false
    → asking_phase env os p ≡ go_on p'
    → p ≡ p'
unfolding asking_phase
asking_phase_plain env os p p' h k = ground (arith, asking_phase_pauses env os p p' k)

stopping_phase_reason :
    (opts : StopOptions) (os : List ToolOutcome) (p : Progress) (reason : FinishReason)
    (pending : List PendingToolCall) (p' : Progress)
    → stopping_phase opts os p ≡ finished reason pending p'
    → reason ≡ stop_condition
unfolding stopping_phase
stopping_phase_reason opts os p reason pending p' h = cc

pub stopping_phase_ends :
    (opts : StopOptions) (os : List ToolOutcome) (p p' : Progress)
    → stopping_phase opts os p ≢ go_on p'
unfolding stopping_phase
stopping_phase_ends opts os p p' h = cc

or_else-eq-none : (a b : Option StopOptions) → or_else a b ≡ none → (a ≡ none) × (b ≡ none)
or_else-eq-none none b h = (refl, h)
or_else-eq-none (some x) b h = absurd (cc)

-- A step that ends the run accounts for every tool call once: counted by its identifier, each call
-- of the outcomes adds one recorded result or one pending entry, and no other call does. The step
-- ends for approvals or paused sub-agents, or it ends for a stop and no outcome asks for approval.
pub route_outcomes-partition :
    (env : InFlight) (os : List ToolOutcome) (p : Progress) (reason : FinishReason)
    (pending : List PendingToolCall) (p' : Progress)
    → route_outcomes env os p ≡ finished reason pending p'
    → (reason ≡ approval_required) ⊎ (any is_ask os ≡ false)
    → (i : String)
    → results_of i p'.tool_results + pending_of i pending
      ≡ results_of i p.tool_results + calls_of i os
unfolding route_outcomes
route_outcomes-partition env os p reason pending p' h k i =
    go (asking_phase env os p) refl (or_else (find_hook_stop os) (find_exec_stop os)) refl
  where
    go :
        (e : StepEnd)
        → asking_phase env os p ≡ e
        → (o : Option StopOptions) → or_else (find_hook_stop os) (find_exec_stop os) ≡ o
        → results_of i p'.tool_results + pending_of i pending
          ≡ results_of i p.tool_results + calls_of i os
    go (finished r q b) x o y =
        ground (arith, x, h, asking_phase_count i env os p reason pending p')
    go (go_on b) x none y = absurd (ground (arith, x, y, h))
    go (go_on b) x (some opts) y =
        let stop : stopping_phase opts os b ≡ finished reason pending p' =
          ground (arith, x, y, h) in
        elim k [
          | inl r ↦ absurd (ground (arith, stopping_phase_reason opts os b reason pending p' stop))
          | inr plain ↦
              rw (asking_phase_plain env os p b plain x)
                (stopping_phase_count i opts os b reason pending p' plain stop)
        ]

-- A step after which the loop goes on, and that asked for no approval, records one result for each
-- call of its outcomes, counted by its identifier, and no other.
pub route_outcomes-answers :
    (env : InFlight) (os : List ToolOutcome) (p p' : Progress)
    → route_outcomes env os p ≡ go_on p'
    → any is_ask os ≡ false
    → (i : String) → results_of i p'.tool_results ≡ results_of i p.tool_results + calls_of i os
unfolding route_outcomes
route_outcomes-answers env os p p' h k i =
    go (asking_phase env os p) refl (or_else (find_hook_stop os) (find_exec_stop os)) refl
  where
    go :
        (e : StepEnd)
        → asking_phase env os p ≡ e
        → (o : Option StopOptions) → or_else (find_hook_stop os) (find_exec_stop os) ≡ o
        → results_of i p'.tool_results ≡ results_of i p.tool_results + calls_of i os
    go (finished r q b) x o y = absurd (ground (arith, x, h))
    go (go_on b) x (some opts) y =
        absurd (ground (arith, x, y, h, stopping_phase_ends opts os b p'))
    go (go_on b) x none y =
        let end : go_on (drain_all os (normal_steps os b)) ≡ go_on p' = ground (arith, x, y, h) in
        rw (asking_phase_plain env os p b k x) (
          ground (
            arith,
            end,
            drain_all_count i os (normal_steps os b),
            normal_steps_count i os b k (or_else-eq-none _ _ y).0,
          ))

-- ===== src/Turn/Settled.antt =====
-- The normal path of a step of `executeLoop` in packages/agentlayer-core/src/agent.ts, and the end of
-- a step that goes on: the messages that answer its calls.
use agentlayer.Prelude.{
  Bool, true, false, ◌||◌, Option, none, some, List, [], ◌∷◌, ◌++◌, ◌≡◌, refl, sym, ◌∙◌, ◌⊎◌, inl,
  inr, arith, All, All-map, any, Option-cases, or_else,
}
use agentlayer.Messages.{ModelMessage}
use agentlayer.State.{PendingToolCall}
use agentlayer.Pending.{is_resolved}
use agentlayer.Pending.Answers.{is_resolved-append}
use agentlayer.Loop.{
  Call, ToolOutcome, executed, denied, answered, ask, hook_stop, StopOptions, append,
}
use agentlayer.Loop.Phases.{
  Progress, FinishReason, StepEnd, finished, go_on, InFlight, is_ask, find_hook_stop,
  find_exec_stop, push_result, drain_into, normal_step, normal_steps, drain_all, asking_phase,
  route_outcomes,
}
use agentlayer.Loop.Partition.{stopping_phase_ends}
use agentlayer.Dangling.Growing.{Grows, Grows-refl, Grows-trans, drain-Grows}
use agentlayer.Turn.Answered.{Answers, Carries, AllCarry}

-- The run's messages hold a result for the call.
abbrev pub IsResolvedIn : Progress → Call → Type 0
IsResolvedIn p c = is_resolved c.tool_call_id p.sink.new_messages ≡ true

-- Messages are only added.
abbrev pub IsLater : Progress → Progress → Type 0
IsLater p p' = Grows p.sink.new_messages p'.sink.new_messages

IsResolvedIn-IsLater :
    (p p' : Progress) (c : Call) → IsLater p p' → IsResolvedIn p c → IsResolvedIn p' c
IsResolvedIn-IsLater p p' c (more, e) h =
    rw e (is_resolved-append c.tool_call_id p.sink.new_messages more ∙ rw h refl)

-- A message that is appended answers its call.
appended-IsResolvedIn :
    (p p' : Progress) (c : Call) (m : ModelMessage)
    → p'.sink.new_messages ≡ p.sink.new_messages ++ (m ∷ [])
    → Answers c.tool_call_id m
    → IsResolvedIn p' c
appended-IsResolvedIn p p' c m e h = rw e (
    is_resolved-append c.tool_call_id p.sink.new_messages (m ∷ [])
    ∙ rw h (or_true (is_resolved c.tool_call_id p.sink.new_messages)))
  where
    or_true : (b : Bool) → (b || true) ≡ true
    or_true true = refl
    or_true false = refl

normal_step-IsLater : (o : ToolOutcome) (p : Progress) → IsLater p (normal_step o p)
unfolding normal_step push_result append
normal_step-IsLater (executed c x) p = (x.message ∷ [], refl)
normal_step-IsLater (denied c m out) p = (m ∷ [], refl)
normal_step-IsLater (answered c m out e ops) p = (m ∷ [], refl)
normal_step-IsLater (ask c request) p = Grows-refl p.sink.new_messages
normal_step-IsLater (hook_stop c options ops) p = Grows-refl p.sink.new_messages

normal_steps-IsLater : (os : List ToolOutcome) (p : Progress) → IsLater p (normal_steps os p)
unfolding normal_steps
normal_steps-IsLater [] p = Grows-refl p.sink.new_messages
normal_steps-IsLater (o ∷ os) p =
    Grows-trans p.sink.new_messages _ _ (normal_step-IsLater o p)
      (normal_steps-IsLater os (normal_step o p))

normal_step-IsResolvedIn :
    (o : ToolOutcome) (p : Progress) (c : Call)
    → Carries c.tool_call_id o
    → is_ask o ≡ false
    → find_hook_stop (o ∷ []) ≡ none
    → IsResolvedIn (normal_step o p) c
unfolding normal_step push_result append is_ask find_hook_stop
normal_step-IsResolvedIn (executed d x) p c h a k =
    appended-IsResolvedIn p (normal_step (executed d x) p) c x.message refl h
normal_step-IsResolvedIn (denied d m out) p c h a k =
    appended-IsResolvedIn p (normal_step (denied d m out) p) c m refl h
normal_step-IsResolvedIn (answered d m out e ops) p c h a k =
    appended-IsResolvedIn p (normal_step (answered d m out e ops) p) c m refl h
normal_step-IsResolvedIn (ask d request) p c h a k = absurd (cc)
normal_step-IsResolvedIn (hook_stop d options ops) p c h a k = absurd (cc)

hook_stop_parts :
    (o : ToolOutcome) (os : List ToolOutcome)
    → find_hook_stop (o ∷ os) ≡ none
    → (find_hook_stop (o ∷ []) ≡ none) × (find_hook_stop os ≡ none)
unfolding find_hook_stop
hook_stop_parts o os h = ground arith

normal_steps-IsResolvedIn :
    (cs : List Call) (os : List ToolOutcome) (p : Progress)
    → AllCarry cs os
    → any is_ask os ≡ false
    → find_hook_stop os ≡ none
    → All (IsResolvedIn (normal_steps os p)) cs
unfolding normal_steps AllCarry
normal_steps-IsResolvedIn [] [] p h a k = tt
normal_steps-IsResolvedIn (c ∷ cs) (o ∷ os) p (h, hs) a k =
    let parts = hook_stop_parts o os k in
    (
      IsResolvedIn-IsLater (normal_step o p) (normal_steps os (normal_step o p)) c
          (normal_steps-IsLater os (normal_step o p))
          (normal_step-IsResolvedIn o p c h (ground (arith, a)) parts.0),
      normal_steps-IsResolvedIn cs os (normal_step o p) hs (ground (arith, a)) parts.1,
    )
normal_steps-IsResolvedIn [] (o ∷ os) p h a k = absurd h
normal_steps-IsResolvedIn (c ∷ cs) [] p h a k = absurd h

drain_all-IsLater : (os : List ToolOutcome) (p : Progress) → IsLater p (drain_all os p)
unfolding drain_all drain_into
drain_all-IsLater [] p = Grows-refl p.sink.new_messages
drain_all-IsLater (executed c x ∷ os) p =
    Grows-trans p.sink.new_messages _ _ (drain-Grows x.pending_updates p.sink)
      (drain_all-IsLater os _)
drain_all-IsLater (denied c m out ∷ os) p = drain_all-IsLater os p
drain_all-IsLater (answered c m out e ops ∷ os) p = drain_all-IsLater os p
drain_all-IsLater (ask c request ∷ os) p = drain_all-IsLater os p
drain_all-IsLater (hook_stop c options ops ∷ os) p = drain_all-IsLater os p

pub StepEnd-cases :
    (e : StepEnd)
    → ((p : Progress) × (e ≡ go_on p))
      ⊎ ((reason : FinishReason) × (es : List PendingToolCall) × (p : Progress) × (e
            ≡ finished reason es p))
StepEnd-cases (go_on p) = inl (p, refl)
StepEnd-cases (finished reason es p) = inr (reason, es, p, refl)

go_on_inj : (p q : Progress) → go_on p ≡ go_on q → p ≡ q
go_on_inj p q e = cc

or_else-eq-none : (a b : Option StopOptions) → or_else a b ≡ none → a ≡ none
or_else-eq-none none b h = refl
or_else-eq-none (some x) b h = absurd (cc)

-- A step whose outcomes ask for no approval, and that goes on.
pub route_outcomes-IsResolvedIn :
    (env : InFlight) (cs : List Call) (os : List ToolOutcome) (p p' : Progress)
    → AllCarry cs os
    → any is_ask os ≡ false
    → route_outcomes env os p ≡ go_on p'
    → All (IsResolvedIn p') cs
unfolding route_outcomes
route_outcomes-IsResolvedIn env cs os p p' h a r = elim (StepEnd-cases (asking_phase env os p)) [
  | inr (reason, es, q, e) ↦ absurd (ground (arith, rw (e, route_outcomes) at r))
  | inl (q, e) ↦ elim (Option-cases (or_else (find_hook_stop os) (find_exec_stop os))) [
    | inr (options, s) ↦
        absurd (stopping_phase_ends options os q p' (rw (e, s, route_outcomes) at r))
    | inl s ↦
        let done = normal_steps os q in
        rw (sym (go_on_inj (drain_all os done) p' (rw (e, s, route_outcomes) at r))) (
          All-map (IsResolvedIn done) (IsResolvedIn (drain_all os done))
            (λ c. IsResolvedIn-IsLater done (drain_all os done) c (drain_all-IsLater os done)) cs
            (normal_steps-IsResolvedIn cs os q h a
              (or_else-eq-none (find_hook_stop os) (find_exec_stop os) s)))
  ]
]

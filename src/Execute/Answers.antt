-- ===== src/Execute/Answers.antt =====
-- What resolveToolCall of packages/agentlayer-core/src/agent.ts gives back is about the call.
use agentlayer.Prelude.{
  String, Bool, true, false, ◌||◌, Option, none, some, List, [], ◌≡◌, refl, ◌⊎◌, inl, inr, arith,
  Bool-cases, Option-cases, or_value,
}
use agentlayer.Prelude.Json.{Json}
use agentlayer.Messages.{build_tool_result_message}
use agentlayer.State.{is_empty}
use agentlayer.Pending.{parse_input}
use agentlayer.Loop.{
  HookStateOperation, Call, ToolOutcome, executed, denied, answered, ask, hook_stop,
}
use agentlayer.Hooks.{
  PreToolUseResult, next, tool_result, stop, ApprovalHookResult, proceed, denied_for, asks,
}
use agentlayer.Execute.{Tool, ToolCallResult, ResolveError, execute_tool_call, call_result}
use agentlayer.Execute.Resolve.{
  Agent, CallContext, replace_output, post_hooks, parsed_hooks, execute_with_post_hooks,
  executed_with, mutated_value, after_pre_hooks, after_approval, after_asking, resolve_parsed,
  resolve_tool_call,
}

-- The message answers the call: it is a tool result with the call's id and name, the output that is
-- recorded, and the error flag that is recorded.
abbrev pub IsAnswer : Call → ToolCallResult → Type 0
IsAnswer c r = r.message ≡ build_tool_result_message c.tool_call_id c.tool_name r.output r.is_error

-- The outcome is one of the call, and a message that it carries answers the call.
abbrev pub IsOutcomeOf : Call → ToolOutcome → Type 0
IsOutcomeOf c (executed d x) =
    (d ≡ c) × (x.message ≡ build_tool_result_message c.tool_call_id c.tool_name x.output x.is_error)
IsOutcomeOf c (denied d message output) =
    (d ≡ c) × (message ≡ build_tool_result_message c.tool_call_id c.tool_name output false)
IsOutcomeOf c (answered d message output is_error ops) =
    (d ≡ c) × (message ≡ build_tool_result_message c.tool_call_id c.tool_name output is_error)
IsOutcomeOf c (ask d request) = d ≡ c
IsOutcomeOf c (hook_stop d options ops) = d ≡ c

-- Neither denied nor waiting for an approval.
abbrev pub IsApproved : ToolOutcome → Type 0
IsApproved (denied d message output) = ⊥
IsApproved (ask d request) = ⊥
IsApproved (executed d x) = Unit
IsApproved (answered d message output is_error ops) = Unit
IsApproved (hook_stop d options ops) = Unit

-- A predicate on what a computation gives where it does not throw.
abbrev pub Ensures {ℓ} : {A : Type ℓ} → (A → Type 0) → ResolveError ⊎ A → Type 0
Ensures P (inl e) = Unit
Ensures P (inr a) = P a

pub execute_tool_call-IsAnswer :
    (tools : String → Option Tool) (c : Call) (ctx : CallContext)
    → Ensures (IsAnswer c) (execute_tool_call tools c ctx.tool_state ctx.messages)
unfolding execute_tool_call call_result
execute_tool_call-IsAnswer tools c ctx = elim (Option-cases (tools c.tool_name)) [
  | inl e ↦ rw (e, execute_tool_call) tt
  | inr (t, e) ↦ rw (e, execute_tool_call) refl
]

replace_output-IsAnswer :
    (c : Call) (o : Option Json) (r : ToolCallResult)
    → r.is_error ≡ false
    → IsAnswer c r
    → IsAnswer c (replace_output c o r)
unfolding replace_output
replace_output-IsAnswer c none r e h = h
replace_output-IsAnswer c (some new) r e h = rw e refl

abbrev FirstAnswers : Call → ToolCallResult × List HookStateOperation → Type 0
FirstAnswers c p = IsAnswer c p.0

parsed_hooks-IsAnswer :
    (a : Agent) (c : Call) (ctx : CallContext) (ops : List HookStateOperation) (r : ToolCallResult)
    (input : Option Json)
    → r.is_error ≡ false
    → IsAnswer c r
    → Ensures (FirstAnswers c) (parsed_hooks a c ctx ops r input)
unfolding post_hooks
parsed_hooks-IsAnswer a c ctx ops r none e h = tt
parsed_hooks-IsAnswer a c ctx ops r (some input) e h = replace_output-IsAnswer c _ r e h

-- The branch after an execution.
abbrev finish :
    Agent
    → Call
    → CallContext
    → List HookStateOperation
    → ResolveError ⊎ ToolCallResult
    → ResolveError ⊎ (ToolCallResult × List HookStateOperation)
finish a c ctx ops run = elim run [
  | inl e ↦ inl e
  | inr r ↦ elim (is_empty a.post_tool_use || r.is_error) [
    | true ↦ inr (r, ops)
    | false ↦ parsed_hooks a c ctx ops r (parse_input a.parse c.input)
  ]
]

finish-IsAnswer :
    (a : Agent) (c : Call) (ctx : CallContext) (ops : List HookStateOperation)
    (run : ResolveError ⊎ ToolCallResult)
    → Ensures (IsAnswer c) run
    → Ensures (FirstAnswers c) (finish a c ctx ops run)
finish-IsAnswer a c ctx ops (inl e) h = tt
finish-IsAnswer a c ctx ops (inr r) h = elim (Bool-cases (is_empty a.post_tool_use || r.is_error)) [
  | inl e ↦ rw (e, Ensures) h
  | inr e ↦ rw (e, Ensures) (parsed_hooks-IsAnswer a c ctx ops r _ (ground (arith, e)) h)
]

execute_with_post_hooks-IsAnswer :
    (a : Agent) (c : Call) (ctx : CallContext) (ops : List HookStateOperation)
    → Ensures (FirstAnswers c) (execute_with_post_hooks a c ctx ops)
unfolding execute_with_post_hooks
execute_with_post_hooks-IsAnswer a c ctx ops =
    finish-IsAnswer a c ctx ops _ (execute_tool_call-IsAnswer a.tools c ctx)

abbrev IsResult : Call → ToolOutcome → Type 0
IsResult c o = IsOutcomeOf c o × IsApproved o

executed_with-IsResult :
    (raw c : Call) (mutated : Option Json) (update notify : Bool)
    (r : ResolveError ⊎ (ToolCallResult × List HookStateOperation))
    → raw.tool_call_id ≡ c.tool_call_id
    → raw.tool_name ≡ c.tool_name
    → Ensures (FirstAnswers raw) r
    → Ensures (IsResult c) (executed_with c mutated update notify r)
executed_with-IsResult raw c mutated update notify (inl e) i n h = tt
executed_with-IsResult raw c mutated update notify (inr (r, ops)) i n h =
    ((refl, rw (i, n) at h), tt)

after_pre_hooks-IsResult :
    (a : Agent) (raw c : Call) (ctx : CallContext) (r : PreToolUseResult)
    (ops : List HookStateOperation)
    → raw.tool_call_id ≡ c.tool_call_id
    → raw.tool_name ≡ c.tool_name
    → Ensures (IsResult c) (after_pre_hooks a raw c ctx r ops)
unfolding after_pre_hooks
after_pre_hooks-IsResult a raw c ctx (tool_result given is_error) ops i n = ((refl, refl), tt)
after_pre_hooks-IsResult a raw c ctx (stop options) ops i n = (refl, tt)
after_pre_hooks-IsResult a raw c ctx (next new update notify) ops i n =
    let mutated = record raw { input = or_value (mutated_value new) raw.input } in
    executed_with-IsResult mutated c (mutated_value new) update notify _ i n
      (execute_with_post_hooks-IsAnswer a mutated ctx ops)

after_approval-IsResult :
    (a : Agent) (raw c : Call) (ctx : CallContext)
    → raw.tool_call_id ≡ c.tool_call_id
    → raw.tool_name ≡ c.tool_name
    → Ensures (IsResult c) (after_approval a raw c ctx)
unfolding after_approval
after_approval-IsResult a raw c ctx i n = elim (Bool-cases (is_empty a.pre_tool_use)) [
  | inl e ↦
      rw (e, after_approval)
        (executed_with-IsResult raw c none false false _ i n
          (execute_with_post_hooks-IsAnswer a raw ctx []))
  | inr e ↦ rw (e, after_approval) (after_pre_hooks-IsResult a raw c ctx _ _ i n)
]

-- Where the approval hooks are skipped the outcome is approved.
abbrev pub IsAllowed : Bool → ToolOutcome → Type 0
IsAllowed true o = IsApproved o
IsAllowed false o = Unit

-- The outcome of a call, which is approved where the approval hooks are skipped.
abbrev pub IsResolved : Call → Bool → ToolOutcome → Type 0
IsResolved c skip o = IsOutcomeOf c o × IsAllowed skip o

approved-IsResolved :
    (c : Call) (skip : Bool) (r : ResolveError ⊎ ToolOutcome)
    → Ensures (IsResult c) r
    → Ensures (IsResolved c skip) r
approved-IsResolved c skip (inl e) h = tt
approved-IsResolved c true (inr o) h = h
approved-IsResolved c false (inr o) h = (h.0, tt)

after_asking-IsResolved :
    (a : Agent) (raw c : Call) (ctx : CallContext) (r : ApprovalHookResult)
    → raw.tool_call_id ≡ c.tool_call_id
    → raw.tool_name ≡ c.tool_name
    → Ensures (IsResolved c false) (after_asking a raw c ctx r)
unfolding after_asking
after_asking-IsResolved a raw c ctx (denied_for reason) i n = ((refl, refl), tt)
after_asking-IsResolved a raw c ctx (asks request) i n = (refl, tt)
after_asking-IsResolved a raw c ctx proceed i n =
    approved-IsResolved c false _ (after_approval-IsResult a raw c ctx i n)

-- A call that is resolved without an error has the outcome of that call, its input parsed: a message
-- in the outcome answers the call's id and name with the output and error flag that are recorded. With
-- the approval hooks skipped it is never denied and never waits for an approval.
pub resolve_tool_call-IsResolved :
    (a : Agent) (raw : Call) (ctx : CallContext) (skip : Bool) (input : Json)
    → parse_input a.parse raw.input ≡ some input
    → Ensures (IsResolved (record raw { input = input }) skip) (resolve_tool_call a raw ctx skip)
unfolding resolve_tool_call resolve_parsed
resolve_tool_call-IsResolved a raw ctx true input e =
    rw (e, resolve_tool_call)
      (approved-IsResolved (record raw { input = input }) true _
        (after_approval-IsResult a raw (record raw { input = input }) ctx refl refl))
resolve_tool_call-IsResolved a raw ctx false input e =
    let c = record raw { input = input } in
    elim (Bool-cases (is_empty a.approval_hooks)) [
      | inl h ↦
          rw (e, resolve_tool_call)
            (rw (h, resolve_parsed)
              (approved-IsResolved c false _ (after_approval-IsResult a raw c ctx refl refl)))
      | inr h ↦
          rw (e, resolve_tool_call)
            (rw (h, resolve_parsed) (after_asking-IsResolved a raw c ctx _ refl refl))
    ]

abbrev pub IsExecuted : ToolOutcome → Type 0
IsExecuted (executed d x) = Unit
IsExecuted (denied d message output) = ⊥
IsExecuted (answered d message output is_error ops) = ⊥
IsExecuted (ask d request) = ⊥
IsExecuted (hook_stop d options ops) = ⊥

executed_with-IsExecuted :
    (c : Call) (r : ResolveError ⊎ (ToolCallResult × List HookStateOperation))
    → Ensures IsExecuted (executed_with c none false false r)
executed_with-IsExecuted c (inl e) = tt
executed_with-IsExecuted c (inr (r, ops)) = tt

-- Without preToolUse hooks, and with the approval hooks skipped, a call is executed.
pub resolve_tool_call-IsExecuted :
    (a : Agent) (raw : Call) (ctx : CallContext)
    → is_empty a.pre_tool_use ≡ true
    → Ensures IsExecuted (resolve_tool_call a raw ctx true)
unfolding resolve_tool_call resolve_parsed after_approval
resolve_tool_call-IsExecuted a raw ctx e = elim (Option-cases (parse_input a.parse raw.input)) [
  | inl p ↦ rw (p, resolve_tool_call) tt
  | inr (input, p) ↦
      rw (p, resolve_tool_call)
        (rw (e, resolve_parsed, after_approval)
          (executed_with-IsExecuted (record raw { input = input })
            (execute_with_post_hooks a raw ctx [])))
]

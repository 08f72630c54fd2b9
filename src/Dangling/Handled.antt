-- ===== src/Dangling/Handled.antt =====
-- executeDanglingToolCalls of packages/agentlayer-core/src/agent.ts loses no call: what becomes of each
-- call that has no result.
use agentlayer.Prelude.{
  String, true, Option, none, some, List, [], ◌∷◌, ◌≡◌, refl, sym, ◌∙◌, ◌==◌, ◌⊎◌, inl, inr, arith,
  All, Bool-cases, Option-cases, eq_iff,
}
use agentlayer.Prelude.Json.{Json}
use agentlayer.Messages.{build_tool_result_message}
use agentlayer.State.{
  AgentState, PendingToolCall, PendingType, approval, stopped, sub_agent, is_empty,
}
use agentlayer.Pending.{parse_input}
use agentlayer.Loop.{
  Call, Execution, ToolOutcome, executed, denied, answered, ask, hook_stop, append,
}
use agentlayer.Loop.Phases.{StepEnd, finished, go_on, stop_condition, Progress, drain_into}
use agentlayer.Execute.{ResolveError}
use agentlayer.Execute.Resolve.{Agent, CallContext, resolve_tool_call, resolve_parsed}
use agentlayer.Execute.Answers.{
  Ensures, IsResolved, resolve_tool_call-IsResolved, IsExecuted, resolve_tool_call-IsExecuted,
}
use agentlayer.Dangling.{
  state_entry, context_of, Handling, continue, ended, entry_for, resume_sub_agent, run_ended,
  auto_execute, handle_outcome, handle_entry, handle_parsed, handle_call, merge_hooks, merge_tools,
  delete_agent,
}
use agentlayer.Dangling.Growing.{Grows-refl, Handles, drain-Grows, answered-Handles, parked-Handles}

some_inj : {A : Type 0} (a b : A) → some a ≡ some b → a ≡ b
some_inj a b e = cc

abbrev pub IsStop : StepEnd → Type 0
IsStop (finished reason es p) = reason ≡ stop_condition
IsStop (go_on p) = ⊥

-- The handling of a call goes on only when the call is handled.
abbrev pub Keeps : Call → List PendingToolCall → Progress → Handling → Type 0
Keeps c remaining p (continue remaining' p') = Handles c remaining remaining' p p'
Keeps c remaining p (ended end) = IsStop end

run_ended-Keeps :
    (c : Call) (input : Json) (x : Execution) (pause : Option (String × AgentState))
    (remaining : List PendingToolCall) (p : Progress)
    → x.message ≡ build_tool_result_message c.tool_call_id c.tool_name x.output x.is_error
    → Keeps c remaining p (run_ended c input x pause remaining p)
unfolding drain_into
run_ended-Keeps c input x (some (child_id, child)) remaining p h =
    parked-Handles c remaining (entry_for c input (sub_agent child_id c.tool_name)) p _ refl refl
run_ended-Keeps c input x none remaining p h =
    answered-Handles c remaining p p _ x.message x.output x.is_error refl h
      (drain-Grows x.pending_updates (append x.message p.sink))

auto_execute-Keeps :
    (c : Call) (input : Json) (remaining : List PendingToolCall) (p : Progress) (o : ToolOutcome)
    → IsResolved (record c { input = input }) true o
    → Keeps c remaining p (auto_execute c input remaining p o)
unfolding auto_execute merge_hooks
auto_execute-Keeps c input remaining p (hook_stop d options ops) h = refl
auto_execute-Keeps c input remaining p (denied d message output) h = absurd h.1
auto_execute-Keeps c input remaining p (ask d request) h = absurd h.1
auto_execute-Keeps c input remaining p (answered d message output is_error ops) h =
    answered-Handles c remaining p (merge_hooks (answered d message output is_error ops) p) _
      message output is_error refl h.0.1 (Grows-refl _)
auto_execute-Keeps c input remaining p (executed d x) h = elim (Option-cases x.stop_requested) [
  | inr (options, s) ↦ rw (s, Keeps) refl
  | inl s ↦ rw (s, Keeps) (run_ended-Keeps c input x x.sub_agent_pause remaining p h.0.1)
]

resume_sub_agent-Keeps :
    (c : Call) (input input' : Json) (agent_id agent_type : String)
    (remaining : List PendingToolCall) (p : Progress) (o : ToolOutcome)
    → IsResolved (record c { input = input' }) true o
    → IsExecuted o
    → Keeps c remaining p (resume_sub_agent c input agent_id agent_type remaining p o)
unfolding resume_sub_agent merge_hooks merge_tools drain_into
resume_sub_agent-Keeps c input input' agent_id agent_type remaining p (hook_stop d options ops) h
      k =
    absurd k
resume_sub_agent-Keeps c input input' agent_id agent_type remaining p (denied d message output) h
      k =
    absurd k
resume_sub_agent-Keeps c input input' agent_id agent_type remaining p (ask d request) h k = absurd k
resume_sub_agent-Keeps c input input' agent_id agent_type remaining p
      (answered d message output is_error ops) h k =
    absurd k
resume_sub_agent-Keeps c input input' agent_id agent_type remaining p (executed d x) h k =
    elim (Option-cases x.sub_agent_pause) [
      | inr ((child_id, child), s) ↦
          rw (s, Keeps)
            (parked-Handles c remaining (entry_for c input (sub_agent child_id agent_type)) p _ refl
              refl)
      | inl s ↦
          rw (s, Keeps)
            (answered-Handles c remaining p
              (record p { sub_agents = delete_agent agent_id p.sub_agents }) _ x.message x.output
              x.is_error refl h.0.1 (drain-Grows x.pending_updates (append x.message p.sink)))
    ]

Ensures-handle_outcome :
    (P : ToolOutcome → Type 0) (Q : Handling → Type 0) (k : ToolOutcome → Handling)
    → ((o : ToolOutcome) → P o → Q (k o))
    → (r : ResolveError ⊎ ToolOutcome) → Ensures P r
    → Ensures Q (handle_outcome k r)
Ensures-handle_outcome P Q k f (inl e) h = tt
Ensures-handle_outcome P Q k f (inr o) h = f o h

abbrev IsResolvedCall : Call → ToolOutcome → Type 0
IsResolvedCall c o = (input : Json) × IsResolved (record c { input = input }) true o

Ensures-both :
    (P Q : ToolOutcome → Type 0) (r : ResolveError ⊎ ToolOutcome)
    → Ensures P r
    → Ensures Q r
    → Ensures (λ o. P o × Q o) r
Ensures-both P Q (inl e) h k = tt
Ensures-both P Q (inr o) h k = (h, k)

Ensures-given :
    (c : Call) (input : Json) (r : ResolveError ⊎ ToolOutcome)
    → Ensures (IsResolved (record c { input = input }) true) r
    → Ensures (IsResolvedCall c) r
Ensures-given c input (inl e) h = tt
Ensures-given c input (inr o) h = (input, h)

resolve_tool_call-IsResolvedCall :
    (a : Agent) (c : Call) (ctx : CallContext)
    → Ensures (IsResolvedCall c) (resolve_tool_call a c ctx true)
resolve_tool_call-IsResolvedCall a c ctx = elim (Option-cases (parse_input a.parse c.input)) [
  | inl e ↦ unfold resolve_tool_call resolve_parsed in rw (e, resolve_tool_call) tt
  | inr (input, e) ↦ Ensures-given c input _ (resolve_tool_call-IsResolved a c ctx true input e)
]

-- An entry of a paused sub-agent is run again without hooks before the tool.
abbrev pub CanResume : Agent → PendingType → Type 0
CanResume a (sub_agent agent_id agent_type) = is_empty a.pre_tool_use ≡ true
CanResume a (approval request) = Unit
CanResume a (stopped reason suggested) = Unit

abbrev pub IsResumable : Agent → PendingToolCall → Type 0
IsResumable a e = CanResume a e.type

pub state_entry-All :
    (P : PendingToolCall → Type 0) (i : String) (es : List PendingToolCall) (e : PendingToolCall)
    → All P es
    → state_entry i es ≡ some e
    → P e × (e.tool_call_id ≡ i)
unfolding state_entry
state_entry-All P i [] e h q = absurd (cc)
state_entry-All P i (d ∷ ds) e (h, hs) q = elim (Option-cases (state_entry i ds)) [
  | inr (f, s) ↦ state_entry-All P i ds e hs (s ∙ rw s at q)
  | inl s ↦ elim (Bool-cases (d.tool_call_id == i)) [
    | inl b ↦ rw (sym (some_inj d e (rw (s, b) at q))) (h, (eq_iff d.tool_call_id i).0 b)
    | inr b ↦ absurd (ground (arith, rw (s, b) at q))
  ]
]

handle_entry-Keeps :
    (a : Agent) (c : Call) (e : PendingToolCall) (type : PendingType)
    (remaining : List PendingToolCall) (p : Progress)
    → CanResume a type
    → e.tool_call_id ≡ c.tool_call_id
    → Ensures (Keeps c remaining p) (handle_entry a c e type remaining p)
unfolding handle_entry
handle_entry-Keeps a c e (sub_agent agent_id agent_type) remaining p h i =
    Ensures-handle_outcome (λ o. IsResolvedCall c o × IsExecuted o) (Keeps c remaining p) _
      (λ o k. resume_sub_agent-Keeps c e.input k.0.0 agent_id agent_type remaining p o k.0.1 k.1)
      (resolve_tool_call a c (context_of p) true)
      (Ensures-both (IsResolvedCall c) IsExecuted _
        (resolve_tool_call-IsResolvedCall a c (context_of p))
        (resolve_tool_call-IsExecuted a c (context_of p) h))
handle_entry-Keeps a c e (approval request) remaining p h i =
    parked-Handles c remaining e p p i refl
handle_entry-Keeps a c e (stopped reason suggested) remaining p h i =
    parked-Handles c remaining e p p i refl

handle_parsed-Keeps :
    (a : Agent) (c : Call) (input : Option Json) (remaining : List PendingToolCall) (p : Progress)
    → parse_input a.parse c.input ≡ input
    → Ensures (Keeps c remaining p) (handle_parsed a c input remaining p)
handle_parsed-Keeps a c none remaining p e = tt
handle_parsed-Keeps a c (some input) remaining p e =
    Ensures-handle_outcome (IsResolved (record c { input = input }) true) (Keeps c remaining p) _
      (auto_execute-Keeps c input remaining p) (resolve_tool_call a c (context_of p) true)
      (resolve_tool_call-IsResolved a c (context_of p) true input e)

pub handle_call-Keeps :
    (a : Agent) (entries : List PendingToolCall) (c : Call) (entry : Option PendingToolCall)
    (remaining : List PendingToolCall) (p : Progress)
    → All (IsResumable a) entries
    → state_entry c.tool_call_id entries ≡ entry
    → Ensures (Keeps c remaining p) (handle_call a c entry remaining p)
handle_call-Keeps a entries c none remaining p h e =
    handle_parsed-Keeps a c (parse_input a.parse c.input) remaining p refl
handle_call-Keeps a entries c (some entry) remaining p h e =
    let k = state_entry-All (IsResumable a) c.tool_call_id entries entry h e in
    handle_entry-Keeps a c entry entry.type remaining p k.0 k.1

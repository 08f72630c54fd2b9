-- ===== src/Turn/Answered.antt =====
-- A step of `executeLoop` in packages/agentlayer-core/src/agent.ts that goes on answers each of its
-- calls in the messages of the run.
use agentlayer.Prelude.{
  String, Bool, true, false, Option, List, [], ◌∷◌, map, ◌≡◌, refl, sym, ◌==◌, ◌⊎◌, inl, inr, arith,
  any, Bool-cases, Option-cases, eq_refl,
}
use agentlayer.Prelude.Json.{Json}
use agentlayer.Messages.{
  ModelMessage, build_tool_result_message, result_id, array_parts, Part, PartBody, text, reasoning,
  file, image, tool_call, tool_result, other, Role, system, user, assistant, tool, Content, plain,
  parts, ProviderOptions,
}
use agentlayer.Pending.{resolves, is_resolved, parse_input}
use agentlayer.Loop.{
  Call, ToolOutcome, executed, denied, answered, ask, hook_stop, notify_outcome, notify_message,
  notification, notify_body, set_body,
}
use agentlayer.Loop.Phases.{is_ask}
use agentlayer.Execute.{ResolveError}
use agentlayer.Execute.Resolve.{Agent, CallContext, resolve_tool_call, resolve_parsed}
use agentlayer.Execute.Answers.{Ensures, IsResolved, IsOutcomeOf, resolve_tool_call-IsResolved}
use agentlayer.Turn.{resolve_all}

-- Reading a message for the result of a call.
abbrev pub Answers : String → ModelMessage → Type 0
Answers i m = is_resolved i (m ∷ []) ≡ true

build_tool_result_message-Answers :
    (i name : String) (output : Json) (is_error : Bool)
    → Answers i (build_tool_result_message i name output is_error)
unfolding is_resolved resolves build_tool_result_message array_parts result_id
build_tool_result_message-Answers i name output is_error = ground (arith, eq_refl i)

-- The message of an outcome, where it has one, answers the call.
abbrev pub Carries : String → ToolOutcome → Type 0
Carries i (executed c x) = Answers i x.message
Carries i (denied c message output) = Answers i message
Carries i (answered c message output is_error ops) = Answers i message
Carries i (ask c request) = Unit
Carries i (hook_stop c options ops) = Unit

outcome-Carries : (c : Call) (o : ToolOutcome) → IsOutcomeOf c o → Carries c.tool_call_id o
outcome-Carries c (executed d x) h =
    rw h.1 (build_tool_result_message-Answers c.tool_call_id c.tool_name _ _)
outcome-Carries c (denied d message output) h =
    rw h.1 (build_tool_result_message-Answers c.tool_call_id c.tool_name _ _)
outcome-Carries c (answered d message output is_error ops) h =
    rw h.1 (build_tool_result_message-Answers c.tool_call_id c.tool_name _ _)
outcome-Carries c (ask d request) h = tt
outcome-Carries c (hook_stop d options ops) h = tt

Ensures-Carries :
    (c : Call) (input : Json) (skip : Bool) (r : ResolveError ⊎ ToolOutcome)
    → Ensures (IsResolved (record c { input = input }) skip) r
    → Ensures (Carries c.tool_call_id) r
Ensures-Carries c input skip (inl e) h = tt
Ensures-Carries c input skip (inr o) h = outcome-Carries (record c { input = input }) o h.0

resolve_tool_call-Carries :
    (a : Agent) (c : Call) (ctx : CallContext) (skip : Bool)
    → Ensures (Carries c.tool_call_id) (resolve_tool_call a c ctx skip)
resolve_tool_call-Carries a c ctx skip = elim (Option-cases (parse_input a.parse c.input)) [
  | inl e ↦ unfold resolve_tool_call resolve_parsed in rw (e, resolve_tool_call) tt
  | inr (input, e) ↦
      Ensures-Carries c input skip _ (resolve_tool_call-IsResolved a c ctx skip input e)
]

-- The outcomes of the calls, in their order.
unfoldable pub AllCarry : List Call → List ToolOutcome → Type 0
AllCarry [] [] = Unit
AllCarry (c ∷ cs) (o ∷ os) = Carries c.tool_call_id o × AllCarry cs os
AllCarry [] (o ∷ os) = ⊥
AllCarry (c ∷ cs) [] = ⊥

inr_inj : {A : Type 0} (a b : A) → ◌≡◌ {A = ResolveError ⊎ A} (inr a) (inr b) → a ≡ b
inr_inj a b e = cc

Sum-cases :
    {A : Type 0} (s : ResolveError ⊎ A)
    → ((e : ResolveError) × (s ≡ inl e)) ⊎ ((a : A) × (s ≡ inr a))
Sum-cases (inl e) = inl (e, refl)
Sum-cases (inr a) = inr (a, refl)

pub resolve_all-AllCarry :
    (a : Agent) (cs : List Call) (ctx : CallContext) (os : List ToolOutcome)
    → resolve_all a cs ctx ≡ inr os
    → AllCarry cs os
unfolding resolve_all AllCarry
resolve_all-AllCarry a [] ctx os h = rw (sym (inr_inj [] os h)) tt
resolve_all-AllCarry a (c ∷ cs) ctx os h = elim (Sum-cases (resolve_tool_call a c ctx false)) [
  | inl (e, q) ↦ absurd (ground (arith, rw (q, resolve_all) at h))
  | inr (o, q) ↦ elim (Sum-cases (resolve_all a cs ctx)) [
    | inl (e, r) ↦ absurd (ground (arith, rw (q, r, resolve_all) at h))
    | inr (rest, r) ↦
        rw (sym (inr_inj (o ∷ rest) os (rw (q, r, resolve_all) at h)))
          (rw q at (resolve_tool_call-Carries a c ctx false), resolve_all-AllCarry a cs ctx rest r)
  ]
]

notified_id : (i j note : String) (b : PartBody) → result_id (notify_body j note b) ≡ result_id b
unfolding notify_body result_id
notified_id i j note (tool_result k n out e) = elim (Bool-cases (k == j)) [
  | inl h ↦ rw h refl
  | inr h ↦ rw h refl
]
notified_id i j note (text s) = refl
notified_id i j note (reasoning s) = refl
notified_id i j note (file x) = refl
notified_id i j note (image x) = refl
notified_id i j note (tool_call k n x) = refl
notified_id i j note (other x) = refl

notify_body-resolves :
    (i j note : String) (p : Part) → resolves i (set_body (notify_body j note) p) ≡ resolves i p
unfolding resolves
notify_body-resolves i j note p = rw (notified_id i j note p.body, resolves) refl

notify_parts-resolves :
    (i j note : String) (ps : List Part)
    → any (resolves i) (map (set_body (notify_body j note)) ps) ≡ any (resolves i) ps
notify_parts-resolves i j note [] = refl
notify_parts-resolves i j note (p ∷ ps) =
    rw (notify_body-resolves i j note p, notify_parts-resolves i j note ps) refl

-- A notification leaves a message the answer that it is.
notified :
    (i j note : String) (r : Role) (content : Content) (o : Option ProviderOptions)
    → Answers i (record { role = r; content = content; provider_options = o })
    → Answers i
        (notify_message j note (record { role = r; content = content; provider_options = o }))
unfolding notify_message is_resolved array_parts
notified i j note tool (plain s) o h = h
notified i j note tool (parts ps) o h = rw (notify_parts-resolves i j note ps) h
notified i j note system content o h = h
notified i j note user content o h = h
notified i j note assistant content o h = h

notify_message-Answers :
    (i j note : String) (m : ModelMessage) → Answers i m → Answers i (notify_message j note m)
notify_message-Answers i j note m h = notified i j note m.role m.content m.provider_options h

notify_outcome-Carries : (i : String) (o : ToolOutcome) → Carries i o → Carries i (notify_outcome o)
unfolding notify_outcome
notify_outcome-Carries i (executed c x) h = elim (Bool-cases x.notify_model) [
  | inr e ↦ rw (e, Carries, notify_outcome) h
  | inl e ↦ elim (Option-cases x.mutated_input) [
    | inl k ↦ rw (e, k, Carries, notify_outcome) h
    | inr (new, k) ↦
        rw (e, k, Carries, notify_outcome)
          (notify_message-Answers i c.tool_call_id (notification c.input new) x.message h)
  ]
]
notify_outcome-Carries i (denied c message output) h = h
notify_outcome-Carries i (answered c message output is_error ops) h = h
notify_outcome-Carries i (ask c request) h = h
notify_outcome-Carries i (hook_stop c options ops) h = h

pub notified-AllCarry :
    (cs : List Call) (os : List ToolOutcome) → AllCarry cs os → AllCarry cs (map notify_outcome os)
unfolding AllCarry
notified-AllCarry [] [] h = tt
notified-AllCarry (c ∷ cs) (o ∷ os) (h, hs) =
    (notify_outcome-Carries c.tool_call_id o h, notified-AllCarry cs os hs)
notified-AllCarry [] (o ∷ os) h = absurd h
notified-AllCarry (c ∷ cs) [] h = absurd h

notify_outcome-is_ask : (o : ToolOutcome) → is_ask (notify_outcome o) ≡ is_ask o
unfolding notify_outcome is_ask
notify_outcome-is_ask (executed c x) = ground arith
notify_outcome-is_ask (denied c message output) = refl
notify_outcome-is_ask (answered c message output is_error ops) = refl
notify_outcome-is_ask (ask c request) = refl
notify_outcome-is_ask (hook_stop c options ops) = refl

pub notified-is_ask : (os : List ToolOutcome) → any is_ask (map notify_outcome os) ≡ any is_ask os
notified-is_ask [] = refl
notified-is_ask (o ∷ os) = rw (notify_outcome-is_ask o, notified-is_ask os) refl

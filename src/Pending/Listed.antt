-- ===== src/Pending/Listed.antt =====
-- Which calls packages/agentlayer-core/src/pending.ts returns, read off the conversation: its last
-- assistant message with tool calls, and the results behind it.
use agentlayer.Prelude.{
  ◌≡◌, refl, ◌↔◌, ◌⊎◌, inl, inr, String, Bool, true, false, not, ◌&&◌, Option, none, some, List, [],
  ◌∷◌, ◌++◌, any, All, Bool-cases, arith, eq_iff,
}
use agentlayer.Prelude.Json.{Json}
use agentlayer.Messages.{
  Role, system, user, assistant, tool, PartBody, tool_call, tool_result, text, reasoning, file,
  image, other, ProviderOptions, ModelMessage, array_parts, result_id,
}
use agentlayer.Pending.{
  UnresolvedCall, is_role, is_call, has_calls, last_calls, resolves, is_resolved,
  get_pending_tool_calls,
}
use agentlayer.Pending.Answers.{lists, is_call_of, get_pending_tool_calls-lists}

abbrev pub Any : {A : Type 0} → (A → Type 0) → List A → Type 0
Any P [] = ⊥
Any P (x ∷ xs) = P x ⊎ Any P xs

any_iff :
    {A : Type 0} (p : A → Bool) (P : A → Type 0)
    → ((x : A) → (p x ≡ true) ↔ P x)
    → (xs : List A) → (any p xs ≡ true) ↔ Any P xs
any_iff p P h [] = ((λ e. cc), (λ e. absurd e))
any_iff p P h (x ∷ xs) = elim (Bool-cases (p x)) [
  | inl e ↦ rw e ((λ _. inl ((h x).0 e)), (λ _. refl))
  | inr e ↦ rw e (
    (λ r. inr ((any_iff p P h xs).0 r)),
    (λ r. elim r [
      | inl k ↦ absurd (ground (arith, (h x).1 k, e))
      | inr k ↦ (any_iff p P h xs).1 k
    ]),
  )
]

-- The part is the call with this id, a call at all, or the result of the call with this id.
abbrev pub IsCallOf : String → PartBody → Type 0
IsCallOf i (tool_call j name input) = j ≡ i
IsCallOf i _ = ⊥

abbrev pub IsCall : PartBody → Type 0
IsCall (tool_call j name input) = Unit
IsCall _ = ⊥

abbrev pub IsResultOf : String → PartBody → Type 0
IsResultOf i (tool_result j name output is_error) = j ≡ i
IsResultOf i _ = ⊥

-- An assistant message with a tool call.
abbrev pub HasCalls : ModelMessage → Type 0
HasCalls m = (m.role ≡ assistant) × Any (λ p. IsCall p.body) (array_parts m)

-- A tool message with a result of the call.
abbrev pub AnswersCall : String → ModelMessage → Type 0
AnswersCall i m = (m.role ≡ tool) × Any (λ p. IsResultOf i p.body) (array_parts m)

is_call_of_iff :
    (i : String) (o : Option ProviderOptions) (b : PartBody)
    → (is_call_of i (record { body = b; provider_options = o }) ≡ true) ↔ IsCallOf i b
is_call_of_iff i o (tool_call j name input) = eq_iff j i
is_call_of_iff i o (text s) = ((λ e. cc), (λ e. absurd e))
is_call_of_iff i o (reasoning s) = ((λ e. cc), (λ e. absurd e))
is_call_of_iff i o (file x) = ((λ e. cc), (λ e. absurd e))
is_call_of_iff i o (image x) = ((λ e. cc), (λ e. absurd e))
is_call_of_iff i o (tool_result j name output is_error) = ((λ e. cc), (λ e. absurd e))
is_call_of_iff i o (other x) = ((λ e. cc), (λ e. absurd e))

is_call_iff :
    (o : Option ProviderOptions) (b : PartBody)
    → (is_call (record { body = b; provider_options = o }) ≡ true) ↔ IsCall b
unfolding is_call
is_call_iff o (tool_call j name input) = ((λ _. tt), (λ _. refl))
is_call_iff o (text s) = ((λ e. cc), (λ e. absurd e))
is_call_iff o (reasoning s) = ((λ e. cc), (λ e. absurd e))
is_call_iff o (file x) = ((λ e. cc), (λ e. absurd e))
is_call_iff o (image x) = ((λ e. cc), (λ e. absurd e))
is_call_iff o (tool_result j name output is_error) = ((λ e. cc), (λ e. absurd e))
is_call_iff o (other x) = ((λ e. cc), (λ e. absurd e))

resolves_iff :
    (i : String) (o : Option ProviderOptions) (b : PartBody)
    → (resolves i (record { body = b; provider_options = o }) ≡ true) ↔ IsResultOf i b
unfolding resolves result_id
resolves_iff i o (tool_call j name input) = ((λ e. cc), (λ e. absurd e))
resolves_iff i o (text s) = ((λ e. cc), (λ e. absurd e))
resolves_iff i o (reasoning s) = ((λ e. cc), (λ e. absurd e))
resolves_iff i o (file x) = ((λ e. cc), (λ e. absurd e))
resolves_iff i o (image x) = ((λ e. cc), (λ e. absurd e))
resolves_iff i o (tool_result j name output is_error) = eq_iff j i
resolves_iff i o (other x) = ((λ e. cc), (λ e. absurd e))

both_iff :
    (b c : Bool) (P Q : Type 0) → (b ≡ true) ↔ P → (c ≡ true) ↔ Q → ((b && c) ≡ true) ↔ (P × Q)
both_iff true true P Q h k = ((λ _. (h.0 refl, k.0 refl)), (λ _. refl))
both_iff true false P Q h k = ((λ e. cc), (λ r. k.1 r.1))
both_iff false c P Q h k = ((λ e. cc), (λ r. h.1 r.0))

is_assistant_iff : (r : Role) → (is_role assistant r ≡ true) ↔ (r ≡ assistant)
is_assistant_iff system = ((λ e. cc), (λ e. cc))
is_assistant_iff user = ((λ e. cc), (λ e. cc))
is_assistant_iff assistant = ((λ _. refl), (λ _. refl))
is_assistant_iff tool = ((λ e. cc), (λ e. cc))

is_tool_iff : (r : Role) → (is_role tool r ≡ true) ↔ (r ≡ tool)
is_tool_iff system = ((λ e. cc), (λ e. cc))
is_tool_iff user = ((λ e. cc), (λ e. cc))
is_tool_iff assistant = ((λ e. cc), (λ e. cc))
is_tool_iff tool = ((λ _. refl), (λ _. refl))

has_calls_iff : (m : ModelMessage) → (has_calls m ≡ true) ↔ HasCalls m
unfolding has_calls
has_calls_iff m = both_iff _ _ _ _ (is_assistant_iff m.role) (
    any_iff is_call (λ p. IsCall p.body) (λ p. is_call_iff p.provider_options p.body)
      (array_parts m))

is_resolved_iff :
    (i : String) (ms : List ModelMessage) → (is_resolved i ms ≡ true) ↔ Any (AnswersCall i) ms
unfolding is_resolved
is_resolved_iff i [] = ((λ e. cc), (λ e. absurd e))
is_resolved_iff i (m ∷ ms) =
    let here = both_iff _ _ _ _ (is_tool_iff m.role) (
      any_iff (resolves i) (λ p. IsResultOf i p.body)
        (λ p. resolves_iff i p.provider_options p.body) (array_parts m)) in
    elim (Bool-cases (is_role tool m.role && any (resolves i) (array_parts m))) [
      | inl e ↦ rw e ((λ _. inl (here.0 e)), (λ _. refl))
      | inr e ↦ rw e (
        (λ r. inr ((is_resolved_iff i ms).0 r)),
        (λ r. elim r [
          | inl k ↦ absurd (ground (arith, here.1 k, e))
          | inr k ↦ (is_resolved_iff i ms).1 k
        ]),
      )
    ]

without_calls-last_calls :
    (ms : List ModelMessage) → All (λ m. HasCalls m → ⊥) ms → last_calls ms ≡ none
unfolding last_calls
without_calls-last_calls [] h = refl
without_calls-last_calls (m ∷ ms) (h, hs) = elim (Bool-cases (has_calls m)) [
  | inl e ↦ absurd (h ((has_calls_iff m).0 e))
  | inr e ↦ rw (without_calls-last_calls ms hs, e) refl
]

last_calls-split :
    (before later : List ModelMessage) (m : ModelMessage)
    → HasCalls m
    → All (λ m. HasCalls m → ⊥) later
    → last_calls (before ++ (m ∷ later)) ≡ some (m, later)
unfolding last_calls
last_calls-split [] later m h k = rw (without_calls-last_calls later k, (has_calls_iff m).1 h) refl
last_calls-split (x ∷ before) later m h k = rw (last_calls-split before later m h k) refl

not_iff : (b : Bool) (P : Type 0) → (b ≡ true) ↔ P → (not b ≡ true) ↔ (P → ⊥)
not_iff true P h = ((λ e. cc), (λ k. absurd (k (h.0 refl))))
not_iff false P h = ((λ _ r. let e = h.1 r in cc), (λ _. refl))

-- In a conversation with an assistant message with tool calls, behind which no other such message
-- stands, and where no input fails to parse: a call is returned exactly when that message holds it
-- and no tool message behind it holds a result for it.
pub get_pending_tool_calls-lists_iff :
    (parse : String → Option Json) (before later : List ModelMessage) (m : ModelMessage)
    (calls : List UnresolvedCall) (i : String)
    → HasCalls m
    → All (λ m. HasCalls m → ⊥) later
    → get_pending_tool_calls parse (before ++ (m ∷ later)) ≡ some calls
    → (lists i calls ≡ true)
      ↔ (Any (λ p. IsCallOf i p.body) (array_parts m) × (Any (AnswersCall i) later → ⊥))
get_pending_tool_calls-lists_iff parse before later m calls i h k e =
    let found = get_pending_tool_calls-lists parse (before ++ (m ∷ later)) calls i e in
    rw (rw (last_calls-split before later m h k) at found) (
      both_iff _ _ _ _
        (any_iff (is_call_of i) (λ p. IsCallOf i p.body)
          (λ p. is_call_of_iff i p.provider_options p.body) (array_parts m))
        (not_iff _ _ (is_resolved_iff i later)))

-- ===== src/Dangling/Growing.antt =====
-- Points of the loop of executeDanglingToolCalls in packages/agentlayer-core/src/agent.ts: entries and
-- appended messages are only added, and a call that is handled stays handled.
use agentlayer.Prelude.{
  Bool, List, [], ◌∷◌, ◌++◌, ◌≡◌, refl, sym, ap, ◌∙◌, ◌⊎◌, inl, inr, append_assoc, append-nil, drop,
  length,
}
use agentlayer.Prelude.Json.{Json}
use agentlayer.Messages.{ModelMessage, build_tool_result_message}
use agentlayer.State.{PendingToolCall}
use agentlayer.Loop.{Call, MessageSink, append, drain}
use agentlayer.Loop.Phases.{Progress}
use agentlayer.Dangling.{append_to}

abbrev pub IsIn : {A : Type 0} → A → List A → Type 0
IsIn a [] = ⊥
IsIn a (x ∷ xs) = (a ≡ x) ⊎ IsIn a xs

-- `longer` is `l` with elements behind it.
abbrev pub Grows : {A : Type 0} → List A → List A → Type 0
Grows l longer = (more : _) × (longer ≡ l ++ more)

module _ {A : Type 0} where
  pub Grows-refl : (l : List A) → Grows l l
  Grows-refl l = ([], sym (append-nil l))

  pub Grows-trans : (a b c : List A) → Grows a b → Grows b c → Grows a c
  Grows-trans a b c (x, e) (y, f) = (x ++ y, f ∙ ap (λ (l : List A). l ++ y) e ∙ append_assoc a x y)

  IsIn-append : (a : A) (l more : List A) → IsIn a l → IsIn a (l ++ more)
  IsIn-append a [] more h = absurd h
  IsIn-append a (x ∷ l) more (inl e) = inl e
  IsIn-append a (x ∷ l) more (inr h) = inr (IsIn-append a l more h)

  IsIn-last : (a : A) (l : List A) → IsIn a (l ++ (a ∷ []))
  IsIn-last a [] = inl refl
  IsIn-last a (x ∷ l) = inr (IsIn-last a l)

  IsIn-Grows : (a : A) (l longer : List A) → Grows l longer → IsIn a l → IsIn a longer
  IsIn-Grows a l longer (more, e) h = rw e (IsIn-append a l more h)

-- A message that this run appended is a tool result with the call's id and name.
abbrev pub IsAnswered : Call → List ModelMessage → Type 0
IsAnswered c ms =
    (output : Json) × (is_error : Bool) × IsIn
      (build_tool_result_message c.tool_call_id c.tool_name output is_error) ms

-- The call has an entry among those that remain pending.
abbrev pub IsPending : Call → List PendingToolCall → Type 0
IsPending c es = (e : PendingToolCall) × (e.tool_call_id ≡ c.tool_call_id) × IsIn e es

abbrev pub IsHandled : List PendingToolCall → Progress → Call → Type 0
IsHandled remaining p c = IsAnswered c p.sink.new_messages ⊎ IsPending c remaining

-- A call that is handled between two points of the loop.
pub record Handles (c : Call) (remaining remaining' : List PendingToolCall) (p p' : Progress)
    : Type 0 where
  pub entries : Grows remaining remaining'
  pub messages : Grows p.sink.new_messages p'.sink.new_messages
  pub handled : IsHandled remaining' p' c

pub IsHandled-Grows :
    (c : Call) (remaining remaining' : List PendingToolCall) (p p' : Progress)
    → Grows remaining remaining'
    → Grows p.sink.new_messages p'.sink.new_messages
    → IsHandled remaining p c
    → IsHandled remaining' p' c
IsHandled-Grows c remaining remaining' p p' g k (inl (output, is_error, h)) =
    inl (output, is_error, IsIn-Grows _ _ _ k h)
IsHandled-Grows c remaining remaining' p p' g k (inr (e, i, h)) = inr (e, i, IsIn-Grows _ _ _ g h)

pub drain-Grows :
    (cbs : List (List ModelMessage → List ModelMessage)) (s : MessageSink)
    → Grows s.new_messages ((drain cbs s).new_messages)
unfolding drain
drain-Grows [] s = Grows-refl s.new_messages
drain-Grows (cb ∷ cbs) s =
    let fresh = drop (length s.all_messages) (cb s.all_messages) in
    Grows-trans s.new_messages (s.new_messages ++ fresh) _ (fresh, refl) (drain-Grows cbs _)

-- A message that answers the call, appended before the updates of the tool.
pub answered-Handles :
    (c : Call) (remaining : List PendingToolCall) (p q p' : Progress) (message : ModelMessage)
    (output : Json) (is_error : Bool)
    → q.sink.new_messages ≡ p.sink.new_messages
    → message ≡ build_tool_result_message c.tool_call_id c.tool_name output is_error
    → Grows ((append_to message q).sink.new_messages) p'.sink.new_messages
    → Handles c remaining remaining p p'
unfolding append
answered-Handles c remaining p q p' message output is_error same e g = record {
  entries = Grows-refl remaining;
  messages =
      Grows-trans p.sink.new_messages _ p'.sink.new_messages
        (message ∷ [], ap (λ (ms : List ModelMessage). ms ++ (message ∷ [])) same) g;
  handled = inl (
    output,
    is_error,
    rw (sym e)
        (IsIn-Grows message _ p'.sink.new_messages g (IsIn-last message q.sink.new_messages)),
  );
}

pub parked-Handles :
    (c : Call) (remaining : List PendingToolCall) (e : PendingToolCall) (p p' : Progress)
    → e.tool_call_id ≡ c.tool_call_id
    → p'.sink.new_messages ≡ p.sink.new_messages
    → Handles c remaining (remaining ++ (e ∷ [])) p p'
parked-Handles c remaining e p p' i same = record {
  entries = (e ∷ [], refl);
  messages = ([], same ∙ sym (append-nil p.sink.new_messages));
  handled = inr (e, i, IsIn-last e remaining);
}

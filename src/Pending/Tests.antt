-- ===== src/Pending/Tests.antt =====
-- A conversation with two calls, of which one has a result.
use agentlayer.Prelude.{
  ◌≡◌, refl, ◌↔◌, inl, String, true, false, Option, none, some, List, [], ◌∷◌, ◌++◌,
}
use agentlayer.Prelude.Json.{Json, str, obj, end}
use agentlayer.Messages.{
  ModelMessage, Part, user, assistant, plain, parts, tool_call, build_tool_result_message,
  array_parts,
}
use agentlayer.Pending.{UnresolvedCall, is_resolved, get_pending_tool_calls}
use agentlayer.Pending.Listed.{Any, IsCallOf, AnswersCall, get_pending_tool_calls-lists_iff}
use agentlayer.Pending.Answers.{lists, get_pending_tool_calls-answered}

abbrev call : String → Part
call i = record { body = tool_call i "read" (str "{}"); provider_options = none }

abbrev asked : ModelMessage
asked = record {
  role = assistant;
  content = parts (call "a" ∷ call "b" ∷ []);
  provider_options = none;
}

abbrev said : ModelMessage
said = record { role = user; content = plain "hi"; provider_options = none }

abbrev answer : String → ModelMessage
answer i = build_tool_result_message i "read" (str "done") false

abbrev talk : List ModelMessage
talk = said ∷ asked ∷ answer "a" ∷ []

abbrev parse : String → Option Json
parse s = some (obj end)

abbrev left : List UnresolvedCall
left = record { tool_call_id = "b"; tool_name = "read"; input = obj end } ∷ []

left_of_talk : get_pending_tool_calls parse talk ≡ some left
unfolding get_pending_tool_calls build_tool_result_message
left_of_talk = refl

b_answered : is_resolved "b" (answer "b" ∷ []) ≡ true
unfolding is_resolved build_tool_result_message
b_answered = refl

get_pending_tool_calls-lists_iff_example : (lists "b" left ≡ true) ↔ (
    Any (λ p. IsCallOf "b" p.body) (array_parts asked)
    × (Any (AnswersCall "b") (answer "a" ∷ []) → ⊥))
unfolding build_tool_result_message array_parts
get_pending_tool_calls-lists_iff_example =
    get_pending_tool_calls-lists_iff parse (said ∷ []) (answer "a" ∷ []) asked left "b"
      (refl, inl tt) ((λ h. (let e = h.0 in cc)), tt) left_of_talk

get_pending_tool_calls-answered_example :
    get_pending_tool_calls parse (talk ++ answer "b" ∷ []) ≡ some []
unfolding build_tool_result_message
get_pending_tool_calls-answered_example =
    get_pending_tool_calls-answered parse talk (answer "b" ∷ []) left left_of_talk (refl, tt)
      (b_answered, tt)

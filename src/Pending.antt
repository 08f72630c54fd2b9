-- ===== src/Pending.antt =====
-- packages/agentlayer-core/src/pending.ts: the tool calls of a conversation that have no result yet.
-- `JSON.parse` of an input that is a text is a parameter, which returns `none` where it throws.
pub mod Answers
pub mod Listed
mod Tests
use agentlayer.Prelude.{
  String, Bool, true, false, not, ◌&&◌, Option, none, some, List, [], ◌∷◌, ◌==◌, any, bind,
  if◌then◌else◌,
}
use agentlayer.Prelude.Json.{Json, str}
use agentlayer.Messages.{
  Role, assistant, tool, PartBody, tool_call, Part, ModelMessage, array_parts, result_id,
}

pub record UnresolvedCall : Type 0 where
  pub tool_call_id : String
  pub tool_name : String
  pub input : Json

abbrev pub is_role : Role → Role → Bool
is_role assistant assistant = true
is_role tool tool = true
is_role _ _ = false

unfoldable pub is_call : Part → Bool
is_call p = elim p.body [ tool_call i n x ↦ true | _ ↦ false ]

unfoldable pub has_calls : ModelMessage → Bool
unfolding is_call array_parts
has_calls m = is_role assistant m.role && any is_call (array_parts m)

-- The last assistant message with tool calls, and the messages behind it.
unfoldable pub last_calls : List ModelMessage → Option (ModelMessage × List ModelMessage)
unfolding has_calls
last_calls [] = none
last_calls (m ∷ ms) = elim (last_calls ms) [
  | some found ↦ some found
  | none ↦ if has_calls m then some (m, ms) else none
]

-- `resolvedIds.has(i)`
unfoldable pub resolves : String → Part → Bool
unfolding result_id
resolves i p = elim (result_id p.body) [ none ↦ false | some j ↦ j == i ]

unfoldable pub is_resolved : String → List ModelMessage → Bool
unfolding resolves array_parts
is_resolved i [] = false
is_resolved i (m ∷ ms) =
    let later = is_resolved i ms in
    if is_role tool m.role && any (resolves i) (array_parts m) then true else later

unfoldable pub parse_input : (String → Option Json) → Json → Option Json
parse_input parse (str s) = parse s
parse_input parse input = some input

-- The loop over the parts of the message.
unfoldable pub unresolved :
    (String → Option Json) → List ModelMessage → List Part → Option (List UnresolvedCall)
unfolding is_resolved parse_input
unresolved parse later [] = some []
unresolved parse later (p ∷ ps) =
    let rest = unresolved parse later ps in
    elim p.body [
      | tool_call i name input ↦
          if is_resolved i later
          then rest
          else bind (parse_input parse input) (λ parsed.
            bind rest (λ calls.
              some (record { tool_call_id = i; tool_name = name; input = parsed } ∷ calls)))
      | _ ↦ rest
    ]

unfoldable pub get_pending_tool_calls :
    (String → Option Json) → List ModelMessage → Option (List UnresolvedCall)
unfolding last_calls unresolved array_parts
get_pending_tool_calls parse ms = elim (last_calls ms) [
  | none ↦ some []
  | some (m, later) ↦ unresolved parse later (array_parts m)
]

-- ===== src/Messages.antt =====
-- packages/agentlayer-core/src/messages.ts and sanitize-text.ts: the messages of a conversation, in
-- the shape that the AI SDK gives them, and the texts that go into persisted state.
use Prim.Native.Char.{Char, code}
use agentlayer.Prelude.{String, Bool, Option, none, some, List, [], ◌∷◌, eqb, if◌then◌else◌}
use agentlayer.Prelude.Json.{
  Json, Items, Fields, null, bool, num, str, arr, obj, nil, cons, end, field,
}

pub data Role : Type 0 where
  system user assistant tool : Role

-- An entry of `providerOptions`: a value that is no object, or an object with its entries.
pub data ProviderValue : Type 0 where
  scalar : Json → ProviderValue
  entries : List (String × Json) → ProviderValue

abbrev pub ProviderOptions : Type 0
ProviderOptions = List (String × ProviderValue)

-- A part's `type` and what the program reads of it; a type that it does not know keeps its JSON.
pub data PartBody : Type 0 where
  text reasoning : String → PartBody
  file image : Json → PartBody
  tool_call : String → String → Json → PartBody
  tool_result : String → String → Json → Bool → PartBody
  other : Json → PartBody

pub record Part : Type 0 where
  pub body : PartBody
  pub provider_options : Option ProviderOptions

pub data Content : Type 0 where
  plain : String → Content
  parts : List Part → Content

pub record ModelMessage : Type 0 where
  pub role : Role
  pub content : Content
  pub provider_options : Option ProviderOptions

-- text.replaceAll('\0', '\uFFFD'); a text here is well formed, so `toWellFormed` changes nothing.
abbrev replacement : Char
replacement = "�"

unfoldable pub sanitize_text : String → String
sanitize_text String.[] = String.[]
sanitize_text (String.◌∷◌ c s) =
    String.◌∷◌ (if eqb (code c) 0 then replacement else c) (sanitize_text s)

-- The source returns the value itself where nothing changed, which is equal.
unfoldable mutual
  unfolding sanitize_text

  pub sanitize_value : Json → Json
  sanitize_value null = null
  sanitize_value (bool b) = bool b
  sanitize_value (num n) = num n
  sanitize_value (str s) = str (sanitize_text s)
  sanitize_value (arr xs) = arr (sanitize_items xs)
  sanitize_value (obj fs) = obj (sanitize_fields fs)

  pub sanitize_items : Items → Items
  sanitize_items nil = nil
  sanitize_items (cons x xs) = cons (sanitize_value x) (sanitize_items xs)

  pub sanitize_fields : Fields → Fields
  sanitize_fields end = end
  sanitize_fields (field k v fs) = field k (sanitize_value v) (sanitize_fields fs)

-- A text output becomes a `text` output.
unfoldable pub resolve_output : Json → Json
resolve_output (str s) = obj (field "type" (str "text") (field "value" (str s) end))
resolve_output out = out

unfoldable pub build_tool_result_message : String → String → Json → Bool → ModelMessage
unfolding sanitize_value resolve_output
build_tool_result_message tool_call_id tool_name output is_error = record {
  role = tool;
  content = parts (
      record {
        body = tool_result tool_call_id tool_name (resolve_output (sanitize_value output)) is_error;
        provider_options = none;
      }
      ∷ []);
  provider_options = none;
}

-- The parts of a message with array content; text content has none.
unfoldable pub array_parts : ModelMessage → List Part
array_parts m = elim m.content [ plain s ↦ [] | parts ps ↦ ps ]

-- toolResultIds of compaction/engine.ts on one part, and the loops of agent.ts over tool messages.
unfoldable pub result_id : PartBody → Option String
result_id (tool_result i n o e) = some i
result_id _ = none

unfoldable pub call_id : PartBody → Option String
call_id (tool_call i n x) = some i
call_id _ = none

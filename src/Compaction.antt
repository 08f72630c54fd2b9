-- ===== src/Compaction.antt =====
-- packages/agentlayer-core/src/compaction/engine.ts: where a conversation is cut when its older part
-- is replaced by a summary. A message here has a role, and its parts as the engine reads them.
pub mod Policy
pub mod Cut
mod Tests
use Prim.Native.String.{◌++◌ as str_append, slice}
use agentlayer.Prelude.{
  ℕ, zero, suc, ◌+◌, ◌-◌, ◌/◌, String, Bool, true, false, not, ◌&&◌, ◌||◌, Option, none, some, List,
  [], ◌∷◌, ◌++◌, map, ◌==◌, max, leb, ltb, eqb, if◌then◌else◌, any, all, keep, length, drop, take,
  get_elem?,
}
use agentlayer.Prelude.Decimal.{utf16_length}
use agentlayer.Prelude.Json.{Json, str, obj, Fields, field, end, stringify}
use agentlayer.Messages.{
  ModelMessage, Role, user, assistant, system, tool, Content, plain, parts, Part, PartBody, text,
  reasoning, file, image, tool_call, tool_result, other, call_id, result_id,
}

abbrev file_part_estimate_chars : ℕ
file_part_estimate_chars = 4800

-- contentParts
unfoldable pub content_parts : Content → List PartBody
content_parts (plain s) = text s ∷ []
content_parts (parts ps) = map (λ (p : Part). p.body) ps

-- output.value where there is one, else the output
unfoldable pub value_field : Fields → Option Json
value_field end = none
value_field (field k v fs) = if k == "value" then some v else value_field fs

unfoldable pub output_value : Json → Json
unfolding value_field
output_value (obj fs) = elim (value_field fs) [ none ↦ obj fs | some v ↦ v ]
output_value out = out

unfoldable pub serialize_value : Json → String
serialize_value (str s) = s
serialize_value v = stringify v

unfoldable pub part_chars : PartBody → ℕ
unfolding serialize_value output_value utf16_length stringify
part_chars (text s) = utf16_length s
part_chars (reasoning s) = utf16_length s
part_chars (file j) = file_part_estimate_chars
part_chars (image j) = file_part_estimate_chars
part_chars (tool_call i n x) = utf16_length n + utf16_length (stringify x)
part_chars (tool_result i n out e) = utf16_length (serialize_value (output_value out))
part_chars (other j) = utf16_length (stringify j)

unfoldable pub sum_chars : List PartBody → ℕ
unfolding part_chars
sum_chars [] = 0
sum_chars (b ∷ bs) = part_chars b + sum_chars bs

-- Math.max(1, Math.ceil(chars / 4))
unfoldable pub estimate_message_tokens : ModelMessage → ℕ
unfolding sum_chars content_parts
estimate_message_tokens m = max 1 ((sum_chars (content_parts m.content) + 3) / 4)

unfoldable pub ids_by : (PartBody → Option String) → List PartBody → List String
ids_by f [] = []
ids_by f (b ∷ bs) = elim (f b) [ none ↦ ids_by f bs | some i ↦ i ∷ ids_by f bs ]

unfoldable pub tool_call_ids : ModelMessage → List String
unfolding ids_by content_parts call_id
tool_call_ids m = elim m.role [ assistant ↦ ids_by call_id (content_parts m.content) | _ ↦ [] ]

unfoldable pub tool_result_ids : ModelMessage → List String
unfolding ids_by content_parts result_id
tool_result_ids m = elim m.role [ tool ↦ ids_by result_id (content_parts m.content) | _ ↦ [] ]

-- messages.flatMap(f)
abbrev pub flat_ids : (ModelMessage → List String) → List ModelMessage → List String
flat_ids f [] = []
flat_ids f (m ∷ ms) = f m ++ flat_ids f ms

abbrev pub has : String → List String → Bool
has i ids = any (λ j. j == i) ids

unfoldable pub has_valid_tool_call_result_pairs : List ModelMessage → Bool
unfolding tool_call_ids tool_result_ids
has_valid_tool_call_result_pairs ms =
    all (λ i. has i (flat_ids tool_call_ids ms)) (flat_ids tool_result_ids ms)

unfoldable pub contains_required_tool_calls : List ModelMessage → List String → Bool
unfolding tool_call_ids
contains_required_tool_calls ms required = all (λ i. has i (flat_ids tool_call_ids ms)) required

unfoldable pub is_valid_cut_role : ModelMessage → Bool
is_valid_cut_role m = elim m.role [ user ↦ true | assistant ↦ true | _ ↦ false ]

-- The loop from the last message back: the first index, from the end, at which the messages from
-- there on hold `keep_recent` tokens. `none` stands for -1.
unfoldable pub tail_tokens : List ModelMessage → ℕ
unfolding estimate_message_tokens
tail_tokens [] = 0
tail_tokens (m ∷ ms) = estimate_message_tokens m + tail_tokens ms

unfoldable pub find_boundary : ℕ → List ModelMessage → Option ℕ
unfolding tail_tokens
find_boundary keep_recent [] = none
find_boundary keep_recent (m ∷ ms) = elim (find_boundary keep_recent ms) [
  | some index ↦ some (suc index)
  | none ↦ if leb (max 1 keep_recent) (tail_tokens (m ∷ ms)) then some 0 else none
]

-- boundary, …, boundary + count - 1
unfoldable pub count_up : ℕ → ℕ → List ℕ
count_up from zero = []
count_up from (suc n) = from ∷ count_up (from + 1) n

-- n, …, 1
unfoldable pub count_down : ℕ → List ℕ
count_down zero = []
count_down (suc n) = suc n ∷ count_down n

unfoldable pub is_cut : List ModelMessage → List String → ℕ → Bool
unfolding is_valid_cut_role has_valid_tool_call_result_pairs contains_required_tool_calls
is_cut ms required index = elim (get_elem? ms index) [
  | none ↦ false
  | some m ↦
      is_valid_cut_role m
      && (has_valid_tool_call_result_pairs (drop index ms)
          && contains_required_tool_calls (drop index ms) required)
]

-- The first candidate that is a cut, or 0.
unfoldable pub first_cut : List ModelMessage → List String → List ℕ → ℕ
unfolding is_cut
first_cut ms required [] = 0
first_cut ms required (i ∷ is) =
    let rest = first_cut ms required is in if is_cut ms required i then i else rest

unfoldable pub find_compaction_cut : List ModelMessage → ℕ → List String → ℕ
unfolding find_boundary first_cut count_up count_down
find_compaction_cut ms keep_recent required =
    if ltb (length ms) 2 then 0 else elim (find_boundary keep_recent ms) [
      | none ↦ 0
      | some zero ↦ 0
      | some (suc b) ↦ first_cut ms required (count_up (suc b) (length ms - suc b) ++ count_down b)
    ]

-- findTurnStart: the last user message at or before the index.
unfoldable pub find_turn_start : List ModelMessage → ℕ → Option ℕ
find_turn_start [] index = none
find_turn_start (m ∷ ms) zero = elim m.role [ user ↦ some 0 | _ ↦ none ]
find_turn_start (m ∷ ms) (suc index) = elim (find_turn_start ms index) [
  | some i ↦ some (suc i)
  | none ↦ elim m.role [ user ↦ some 0 | _ ↦ none ]
]

unfoldable pub is_user_at : List ModelMessage → ℕ → Bool
is_user_at ms index = elim (get_elem? ms index) [
  | none ↦ false
  | some m ↦ elim m.role [ user ↦ true | _ ↦ false ]
]

-- The texts of the plan are `serialize_conversation` of its messages, and are left out.
pub record CompactionPlan : Type 0 where
  pub cut_index : ℕ
  pub history_messages : List ModelMessage
  pub turn_prefix_messages : List ModelMessage
  pub is_split_turn : Bool
  pub replaced_messages : List ModelMessage
  pub retained_messages : List ModelMessage

-- turnStartIndex, where it is a split: at least 0 and before the cut.
unfoldable pub split_start : List ModelMessage → ℕ → Option ℕ
unfolding is_user_at find_turn_start
split_start ms cut = if is_user_at ms cut then none else elim (find_turn_start ms cut) [
  | none ↦ none
  | some start ↦ if ltb start cut then some start else none
]

unfoldable pub plan_at : List ModelMessage → ℕ → CompactionPlan
unfolding split_start
plan_at ms cut = elim (split_start ms cut) [
  | none ↦ record {
    cut_index = cut;
    history_messages = take cut ms;
    turn_prefix_messages = [];
    is_split_turn = false;
    replaced_messages = take cut ms;
    retained_messages = drop cut ms;
  }
  | some start ↦ record {
    cut_index = cut;
    history_messages = take start ms;
    turn_prefix_messages = take (cut - start) (drop start ms);
    is_split_turn = true;
    replaced_messages = take cut ms;
    retained_messages = drop cut ms;
  }
]

unfoldable pub plan_compaction : List ModelMessage → ℕ → List String → Option CompactionPlan
unfolding find_compaction_cut plan_at
plan_compaction ms keep_recent required =
    let cut = find_compaction_cut ms keep_recent required in
    if eqb cut 0 then none else some (plan_at ms cut)

unfoldable pub fits_compaction_tail : List ModelMessage → ℕ → List String → Bool
unfolding find_compaction_cut has_valid_tool_call_result_pairs contains_required_tool_calls
    tail_tokens
fits_compaction_tail ms keep_recent required =
    not (ltb (length ms) 2)
    && (eqb (find_compaction_cut ms keep_recent required) 0
        && (has_valid_tool_call_result_pairs ms
            && (contains_required_tool_calls ms required
                && leb (tail_tokens ms) (max 1 keep_recent))))

-- ===== src/FileState.antt =====
-- packages/agentlayer-filesystem/src/hooks/file-state.ts and utils/expand-path.ts: the hooks that
-- remember which files were read, answer repeated reads, and hold back writes to unread files.
-- The hash function, `node:path` and the parsed patches come from an environment, and the disk is a
-- function of the path. A `stat` that fails for another reason than a missing path is left out.
pub mod Ranges
pub mod Actions
pub mod Guarantees
pub mod Writes
pub mod Consistent
pub mod Repeats
mod Tests
use Prim.Native.String.{◌++◌ as str_append, String as Text}
use Prim.Native.Char.{code}
use agentlayer.Prelude.{
  ℕ, suc, ◌+◌, ◌-◌, String, Bool, true, false, not, ◌&&◌, ◌||◌, Option, none, some, List, [], ◌∷◌,
  ◌++◌, ◌==◌, max, leb, eqb, if◌then◌else◌, any, bind, or_else, or_value,
}
use agentlayer.Prelude.Records.{lookup, insert, remove}
use agentlayer.Prelude.Json.{Json, null, num, str, obj, Fields, field, end}
use agentlayer.Messages.{sanitize_text}
use agentlayer.FileState.Ranges.{LineRange, add_covered_range, is_range_covered}

pub record WastedReadTracking : Type 0 where
  pub hash : String
  pub total_lines : ℕ
  pub ranges : List LineRange

pub record FileReadStateEntry : Type 0 where
  pub last_read_hash : Option String
  pub wasted_read : Option WastedReadTracking

pub record FileVerificationStateEntry : Type 0 where
  pub last_verified_hash : Option String

abbrev pub FileReadStateMap : Type 0
FileReadStateMap = List (String × FileReadStateEntry)

abbrev pub FileVerificationStateMap : Type 0
FileVerificationStateMap = List (String × FileVerificationStateEntry)

-- The two maps under their keys of the tool state; an absent map is empty.
pub record FileState : Type 0 where
  pub file_read_state : FileReadStateMap
  pub file_verification_state : FileVerificationStateMap

pub data FileReadStateAction : Type 0 where
  set_read_observation : String → String → ℕ → LineRange → FileReadStateAction
  delete : String → FileReadStateAction
  move : String → String → Option String → FileReadStateAction

pub data FileVerificationStateAction : Type 0 where
  set_verified : String → String → FileVerificationStateAction
  delete : String → FileVerificationStateAction
  move : String → String → Option String → FileVerificationStateAction

-- An operation of a parsed patch, as far as the hooks read it.
pub data PatchOperation : Type 0 where
  write_file : String → PatchOperation
  delete_file : String → PatchOperation
  move_file : String → Option String → PatchOperation

pub data Node : Type 0 where
  missing : Node
  regular : String → Node
  special : Node

abbrev pub Disk : Type 0
Disk = String → Node

pub record Env : Type 0 where
  pub hash_content : String → String
  pub resolve : String → String → String
  pub homedir : String
  pub cwd : String
  pub parse_patch : String → Option (List PatchOperation)

-- A text that is empty counts as absent.
unfoldable pub truthy : Option String → Option String
truthy none = none
truthy (some s) = if s == "" then none else some s

-- p.startsWith('~/') and p.slice(2)
unfoldable pub home_rest : String → Option String
home_rest (Text.◌∷◌ c (Text.◌∷◌ d s)) =
    if eqb (code c) b'~' && eqb (code d) b'/' then some s else none
home_rest (Text.◌∷◌ c Text.[]) = none
home_rest Text.[] = none

unfoldable pub expand_path : Env → String → String
unfolding home_rest
expand_path env p =
    if p == "~"
    then env.homedir
    else env.resolve env.cwd (elim (home_rest p) [ none ↦ p | some s ↦ env.resolve env.homedir s ])

abbrev system_reminder : String → String
system_reminder message = str_append "<system-reminder>" (str_append message "</system-reminder>")

-- content.split('\n').length - 1, and content.endsWith('\n')
unfoldable pub newlines : String → ℕ
newlines Text.[] = 0
newlines (Text.◌∷◌ c s) = (if eqb (code c) 10 then 1 else 0) + newlines s

unfoldable pub ends_in_newline : String → Bool
ends_in_newline Text.[] = false
ends_in_newline (Text.◌∷◌ c Text.[]) = eqb (code c) 10
ends_in_newline (Text.◌∷◌ c (Text.◌∷◌ d s)) = ends_in_newline (Text.◌∷◌ d s)

unfoldable pub get_total_lines : String → ℕ
unfolding newlines ends_in_newline
get_total_lines content =
    if content == ""
    then 1
    else if ends_in_newline content
    then max 1 (newlines content)
    else newlines content + 1

unfoldable pub read_regular_file : Disk → String → Option String
unfolding sanitize_text
read_regular_file disk path = elim (disk path) [ regular s ↦ some (sanitize_text s) | _ ↦ none ]

unfoldable pub compute_file_hash : Env → Disk → String → Option String
unfolding read_regular_file
compute_file_hash env disk path = elim (read_regular_file disk path) [
  | none ↦ none
  | some s ↦ some (env.hash_content s)
]

-- input.key, where `null` counts as absent
unfoldable pub get_field : String → Fields → Option Json
get_field key end = none
get_field key (field k v fs) =
    if k == key then (elim v [ null ↦ none | w ↦ some w ]) else get_field key fs

unfoldable pub input_field : String → Json → Option Json
unfolding get_field
input_field key (obj fs) = get_field key fs
input_field key _ = none

abbrev pub as_text : Option Json → Option String
as_text none = none
as_text (some (str s)) = some s
as_text (some _) = none

unfoldable pub extract_file_path : Json → Option String
unfolding input_field
extract_file_path input =
    as_text (or_else (input_field "file_path" input) (input_field "filePath" input))

unfoldable pub extract_patch_text : Json → Option String
unfolding input_field
extract_patch_text input = as_text (input_field "patch_text" input)

unfoldable pub normalize_positive_integer : Option Json → ℕ → ℕ
normalize_positive_integer none fallback = fallback
normalize_positive_integer (some (num n)) fallback = if leb 1 n then n else fallback
normalize_positive_integer (some _) fallback = fallback

unfoldable pub get_read_range : Json → LineRange
unfolding input_field normalize_positive_integer
get_read_range input =
    let offset = normalize_positive_integer (input_field "offset" input) 1 in
    let limit = normalize_positive_integer (input_field "limit" input) 2000 in
    record { start_line = offset; end_line = offset + limit - 1 }

pub record TrackedPath : Type 0 where
  pub resolved_path : String
  pub display_path : String

abbrev pub tracked : Env → String → TrackedPath
tracked env p = record { resolved_path = expand_path env p; display_path = p }

-- The loop with its set of seen paths.
unfoldable pub dedupe_tracked_paths : List String → List TrackedPath → List TrackedPath
dedupe_tracked_paths seen [] = []
dedupe_tracked_paths seen (t ∷ ts) =
    let skipped = dedupe_tracked_paths seen ts in
    let kept = dedupe_tracked_paths (t.resolved_path ∷ seen) ts in
    if any (λ p. p == t.resolved_path) seen then skipped else t ∷ kept

unfoldable pub operation_targets : Env → PatchOperation → List TrackedPath
unfolding truthy
operation_targets env (write_file p) = tracked env p ∷ []
operation_targets env (delete_file p) = tracked env p ∷ []
operation_targets env (move_file p target) =
    tracked env p ∷ elim (truthy target) [ none ↦ [] | some q ↦ tracked env q ∷ [] ]

unfoldable pub all_targets : Env → List PatchOperation → List TrackedPath
unfolding operation_targets
all_targets env [] = []
all_targets env (op ∷ ops) = operation_targets env op ++ all_targets env ops

unfoldable pub get_write_path_targets : Env → String → Json → List TrackedPath
unfolding extract_patch_text extract_file_path truthy dedupe_tracked_paths all_targets
get_write_path_targets env tool_name input =
    if tool_name == "apply_patch"
    then (elim (truthy (extract_patch_text input)) [
      | none ↦ []
      | some patch_text ↦ elim (env.parse_patch patch_text) [
        | none ↦ []
        | some ops ↦ dedupe_tracked_paths [] (all_targets env ops)
      ]
    ])
    else elim (truthy (extract_file_path input)) [ none ↦ [] | some p ↦ tracked env p ∷ [] ]

-- The result of a hook before a tool: the tool runs, or the text answers in its place.
pub data HookResult : Type 0 where
  next : HookResult
  answer : String → Bool → HookResult

-- The test of the loop over the write targets: the target may be written.
unfoldable pub may_write : Env → Disk → FileVerificationStateMap → TrackedPath → Bool
unfolding compute_file_hash truthy
may_write env disk verification t = elim (disk t.resolved_path) [
  | missing ↦ true
  | _ ↦ elim (truthy (bind (lookup t.resolved_path verification) (λ e. e.last_verified_hash))) [
    | none ↦ false
    | some verified ↦ elim (compute_file_hash env disk t.resolved_path) [
      | none ↦ false
      | some current ↦ current == verified
    ]
  ]
]

unfoldable pub check_targets : Env → Disk → FileVerificationStateMap → List TrackedPath → HookResult
unfolding may_write
check_targets env disk verification [] = next
check_targets env disk verification (t ∷ ts) =
    let rest = check_targets env disk verification ts in
    if may_write env disk verification t
    then rest
    else answer
        (system_reminder
          (str_append "You must read file " (str_append t.display_path " before writing to it.")))
        true

-- The tools that the hook is registered for.
abbrev pub is_write_tool : String → Bool
is_write_tool tool_name = tool_name == "write" || tool_name == "edit" || tool_name == "apply_patch"

unfoldable pub read_before_write_hook : Env → Disk → String → Json → FileState → HookResult
unfolding get_write_path_targets check_targets
read_before_write_hook env disk tool_name input s =
    if is_write_tool tool_name
    then check_targets env disk s.file_verification_state
        (get_write_path_targets env tool_name input)
    else next

-- The chain of tests of the hook over a read path that is not empty.
unfoldable pub is_wasted : Env → Disk → String → LineRange → FileState → Bool
unfolding compute_file_hash truthy is_range_covered
is_wasted env disk path requested s = elim (lookup path s.file_read_state) [
  | none ↦ false
  | some e ↦ elim (truthy e.last_read_hash) [
    | none ↦ false
    | some last ↦ elim (truthy (compute_file_hash env disk path)) [
      | none ↦ false
      | some current ↦
          if current == last
          then (elim (bind (lookup path s.file_verification_state) (λ v. v.last_verified_hash)) [
            | none ↦ false
            | some verified ↦ elim e.wasted_read [
              | none ↦ false
              | some w ↦
                  verified == current && (w.hash == current && is_range_covered w.ranges requested)
            ]
          ])
          else false
    ]
  ]
]

unfoldable pub wasted_read_hook : Env → Disk → Json → FileState → HookResult
unfolding extract_file_path get_read_range is_wasted truthy
wasted_read_hook env disk input s = elim (truthy (extract_file_path input)) [
  | none ↦ next
  | some read_path ↦
      if is_wasted env disk (expand_path env read_path) (get_read_range input) s
      then answer
          (system_reminder (
            str_append "File " (
              str_append read_path
                " is already in your context and unchanged. Refer to the previous read result.")))
          false
      else next
]

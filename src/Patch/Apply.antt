-- ===== src/Patch/Apply.antt =====
-- computeReplacements, applyReplacements, applyUpdateChunks and validateHunks of
-- packages/agentlayer-core/src/utils/patch-parser.ts. Reading a file is a parameter, `none` where it
-- throws; a thrown error is a value of PatchError.
use Prim.Native.String.{String}
use Prim.Native.Char.{code}
use agentlayer.Prelude.{
  ℕ, suc, ◌+◌, ◌-◌, Bool, true, false, ◌&&◌, Option, none, some, List, [], ◌∷◌, ◌++◌, if◌then◌else◌,
  eqb, leb, length, take, drop, ◌⊎◌, inl, inr, bind,
}
use agentlayer.Prelude.Texts.{split_lines, join_lines, join_text, starts_with, strip_prefix}
use agentlayer.Patch.{
  PatchChunk, PatchOperation, PatchOperationType, add, update, delete, move, is_empty, unless_empty,
}
use agentlayer.Patch.Seek.{seek_sequence}

pub record Replacement : Type 0 where
  pub start : ℕ
  pub old_length : ℕ
  pub segment : List String

pub data PatchError : Type 0 where
  context_not_found : String → PatchError
  lines_not_found : String → PatchError

-- Whether the last line is the empty text.
unfoldable pub ends_empty : List String → Bool
ends_empty [] = false
ends_empty (l ∷ []) = is_empty l
ends_empty (l ∷ (k ∷ ls)) = ends_empty (k ∷ ls)

-- `lines.slice(0, -1)`
unfoldable pub drop_last : List String → List String
drop_last [] = []
drop_last (l ∷ []) = []
drop_last (l ∷ (k ∷ ls)) = l ∷ drop_last (k ∷ ls)

-- The seek of the `@@` context: the line index from which the chunk is sought.
unfoldable pub after_context : List String → ℕ → Option String → PatchError ⊎ ℕ
unfolding seek_sequence
after_context lines index none = inr index
after_context lines index (some context) = elim (seek_sequence lines (context ∷ []) index false) [
  | none ↦ inl (context_not_found context)
  | some i ↦ inr (suc i)
]

unfoldable pub insertion_index : List String → ℕ
unfolding ends_empty
insertion_index lines = if ends_empty lines then length lines - 1 else length lines

abbrev pub replace_at : List String → List String → ℕ → Replacement
replace_at pattern new_slice i = record {
  start = i;
  old_length = length pattern;
  segment = new_slice;
}

-- The seek of the old lines, with the retry without an empty line at their end.
unfoldable pub locate : List String → ℕ → PatchChunk → Option Replacement
unfolding seek_sequence ends_empty drop_last
locate lines index c =
    let shorter = drop_last c.old_lines in
    let shorter_new = if ends_empty c.new_lines then drop_last c.new_lines else c.new_lines in
    elim (seek_sequence lines c.old_lines index c.end_of_file) [
      | some i ↦ some (replace_at c.old_lines c.new_lines i)
      | none ↦ elim (ends_empty c.old_lines) [
        | false ↦ none
        | true ↦ elim (seek_sequence lines shorter index c.end_of_file) [
          | none ↦ none
          | some i ↦ some (replace_at shorter shorter_new i)
        ]
      ]
    ]

-- The replacement of one chunk, and the line index behind it.
unfoldable pub place_chunk : List String → ℕ → PatchChunk → PatchError ⊎ (Replacement × ℕ)
unfolding after_context insertion_index locate join_lines
place_chunk lines index c = elim (after_context lines index (bind c.change_context unless_empty)) [
  | inl e ↦ inl e
  | inr at ↦ elim c.old_lines [
    | [] ↦ inr (record { start = insertion_index lines; old_length = 0; segment = c.new_lines }, at)
    | l ∷ ls ↦ elim (locate lines at c) [
      | none ↦ inl (lines_not_found (join_lines (take 3 c.old_lines)))
      | some r ↦ inr (r, r.start + r.old_length)
    ]
  ]
]

-- The loop over the chunks, in their order.
unfoldable pub place_chunks : List String → ℕ → List PatchChunk → PatchError ⊎ List Replacement
unfolding place_chunk
place_chunks lines index [] = inr []
place_chunks lines index (c ∷ cs) = elim (place_chunk lines index c) [
  | inl e ↦ inl e
  | inr placed ↦ elim (place_chunks lines placed.1 cs) [
    | inl e ↦ inl e
    | inr rs ↦ inr (placed.0 ∷ rs)
  ]
]

-- `replacements.sort((a, b) => a[0] - b[0])`, which keeps the order of equal starts.
unfoldable pub insert_sorted : Replacement → List Replacement → List Replacement
insert_sorted r [] = r ∷ []
insert_sorted r (q ∷ qs) =
    let later = insert_sorted r qs in if leb r.start q.start then r ∷ (q ∷ qs) else q ∷ later

unfoldable pub sort_replacements : List Replacement → List Replacement
unfolding insert_sorted
sort_replacements [] = []
sort_replacements (r ∷ rs) = insert_sorted r (sort_replacements rs)

unfoldable pub compute_replacements : List String → List PatchChunk → PatchError ⊎ List Replacement
unfolding place_chunks sort_replacements
compute_replacements lines cs = elim (place_chunks lines 0 cs) [
  | inl e ↦ inl e
  | inr rs ↦ inr (sort_replacements rs)
]

-- `result.splice(start, old_length, ...segment)`
unfoldable pub splice : Replacement → List String → List String
splice r ls = take r.start ls ++ (r.segment ++ drop (r.start + r.old_length) ls)

-- From the last replacement to the first.
unfoldable pub apply_replacements : List String → List Replacement → List String
unfolding splice
apply_replacements lines [] = lines
apply_replacements lines (r ∷ rs) = splice r (apply_replacements lines rs)

unfoldable pub has_crlf : String → Bool
unfolding strip_prefix
has_crlf String.[] = false
has_crlf (String.◌∷◌ c s) =
    let later = has_crlf s in if eqb (code c) 13 && starts_with "\n" s then true else later

-- `content.replace(/\r\n/g, '\n')`
unfoldable pub lf_endings : String → String
unfolding strip_prefix
lf_endings String.[] = String.[]
lf_endings (String.◌∷◌ c s) =
    let rest = lf_endings s in
    if eqb (code c) 13 && starts_with "\n" s then rest else String.◌∷◌ c rest

-- `result.replace(/\n/g, '\r\n')`
unfoldable pub crlf_endings : String → String
unfolding join_text
crlf_endings String.[] = String.[]
crlf_endings (String.◌∷◌ c s) =
    let rest = crlf_endings s in
    if eqb (code c) 10 then join_text "\r\n" rest else String.◌∷◌ c rest

-- The lines of a file, without the empty line that a newline at its end leaves.
unfoldable pub file_lines : String → List String
unfolding lf_endings split_lines ends_empty drop_last
file_lines content =
    let lines = split_lines (lf_endings content) in
    if ends_empty lines then drop_last lines else lines

unfoldable pub with_newline : List String → List String
unfolding ends_empty
with_newline lines = if ends_empty lines then lines else lines ++ ("" ∷ [])

unfoldable pub apply_update_chunks : String → List PatchChunk → PatchError ⊎ String
unfolding file_lines compute_replacements apply_replacements with_newline join_lines has_crlf
    crlf_endings
apply_update_chunks content cs = elim (compute_replacements (file_lines content) cs) [
  | inl e ↦ inl e
  | inr rs ↦
      let result = join_lines (with_newline (apply_replacements (file_lines content) rs)) in
      inr (if has_crlf content then crlf_endings result else result)
]

pub data HunkError : Type 0 where
  unreadable_update : String → HunkError
  failed_chunks : PatchError → HunkError
  unreadable_delete : String → HunkError

abbrev pub error_of : PatchError ⊎ String → Option HunkError
error_of (inl e) = some (failed_chunks e)
error_of (inr t) = none

abbrev pub update_error : Option String → PatchOperation → Option HunkError
update_error none op = some (unreadable_update op.file_path)
update_error (some content) op = error_of (apply_update_chunks content op.chunks)

abbrev pub delete_error : Option String → PatchOperation → Option HunkError
delete_error none op = some (unreadable_delete op.file_path)
delete_error (some content) op = none

unfoldable pub typed_error :
    (String → Option String) → PatchOperation → PatchOperationType → Option HunkError
unfolding apply_update_chunks
typed_error read_file op add = none
typed_error read_file op update = update_error (read_file op.file_path) op
typed_error read_file op delete = delete_error (read_file op.file_path) op
typed_error read_file op move = update_error (read_file op.file_path) op

unfoldable pub hunk_error : (String → Option String) → PatchOperation → Option HunkError
unfolding typed_error
hunk_error read_file op = typed_error read_file op op.type

-- The first error, `none` where every hunk can be applied.
unfoldable pub validate_hunks : (String → Option String) → List PatchOperation → Option HunkError
unfolding hunk_error
validate_hunks read_file [] = none
validate_hunks read_file (op ∷ ops) = elim (hunk_error read_file op) [
  | some e ↦ some e
  | none ↦ validate_hunks read_file ops
]

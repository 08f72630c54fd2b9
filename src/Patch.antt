-- ===== src/Patch.antt =====
-- packages/agentlayer-core/src/utils/patch-parser.ts: the text between `*** Begin Patch` and
-- `*** End Patch` as operations on files. The loops over the body recur on fuel, which the number of
-- lines suffices for; a thrown error is a value of the result.
pub mod Heredoc
pub mod Seek
pub mod Located
pub mod Apply
pub mod Total
pub mod Lines
pub mod Printer
pub mod Loops
pub mod Written
pub mod RoundTrip
pub mod Splice
pub mod Placed
pub mod Validated
mod Tests
use Prim.Native.String.{String}
use Prim.Native.Char.{code}
use agentlayer.Prelude.{
  ℕ, zero, suc, Bool, true, false, not, ◌||◌, ◌&&◌, Option, none, some, List, [], ◌∷◌,
  if◌then◌else◌, eqb, leb, length, take, drop, bind, ◌-◌,
}
use agentlayer.Prelude.Texts.{
  strip_prefix, starts_with, same_text, trim, trim_start, trim_end, split_lines, join_text,
}
use agentlayer.Patch.Heredoc.{strip_heredoc}

pub data PatchOperationType : Type 0 where
  add : PatchOperationType
  update : PatchOperationType
  delete : PatchOperationType
  move : PatchOperationType

pub record PatchChunk : Type 0 where
  pub old_lines : List String
  pub new_lines : List String
  pub change_context : Option String
  pub end_of_file : Bool

pub record PatchOperation : Type 0 where
  pub type : PatchOperationType
  pub file_path : String
  pub target_path : Option String
  pub add_content : Option String
  pub chunks : List PatchChunk

pub data ParseResult : Type 0 where
  parsed : List PatchOperation → ParseResult
  invalid_format : ParseResult
  out_of_fuel : ParseResult

abbrev pub is_empty : String → Bool
is_empty String.[] = true
is_empty (String.◌∷◌ c s) = false

-- A line of a header, `*** Add File: ` and the like.
unfoldable pub is_header : String → Bool
unfolding strip_prefix
is_header l = starts_with "*** " l

unfoldable pub drop_newline : String → String
drop_newline String.[] = String.[]
drop_newline (String.◌∷◌ c String.[]) =
    if eqb (code c) 10 then String.[] else String.◌∷◌ c String.[]
drop_newline (String.◌∷◌ c (String.◌∷◌ d s)) = String.◌∷◌ c (drop_newline (String.◌∷◌ d s))

-- One line of the content of an added file, before the content of the later lines.
unfoldable pub add_line : String → String → String
unfolding strip_prefix join_text
add_line l content = elim (strip_prefix "+" l) [
  | none ↦ content
  | some t ↦ join_text t (join_text "\n" content)
]

-- The loop over the lines of an added file: the content, and the lines from the next header on.
unfoldable pub add_lines : List String → String × List String
unfolding is_header add_line
add_lines [] = ("", [])
add_lines (l ∷ ls) =
    let rest = add_lines ls in if is_header l then ("", l ∷ ls) else (add_line l rest.0, rest.1)

-- The loop that skips the lines behind a deleted file's header.
unfoldable pub skip_lines : List String → List String
unfolding is_header
skip_lines [] = []
skip_lines (l ∷ ls) = let rest = skip_lines ls in if is_header l then l ∷ ls else rest

unfoldable pub is_end_of_file : String → Bool
unfolding same_text
is_end_of_file l = same_text l "*** End of File"

unfoldable pub is_chunk_start : String → Bool
unfolding strip_prefix
is_chunk_start l = starts_with "@@" l

pub record ChunkLines : Type 0 where
  pub olds : List String
  pub news : List String
  pub at_end : Bool
  pub rest : List String

-- One line of a chunk, by its first character, before the lines behind it.
unfoldable pub chunk_line : String → ChunkLines → ChunkLines
chunk_line String.[] r = r
chunk_line (String.◌∷◌ c t) r =
    if eqb (code c) 32
    then record { olds = t ∷ r.olds; news = t ∷ r.news; at_end = r.at_end; rest = r.rest }
    else if eqb (code c) 45
    then record { olds = t ∷ r.olds; news = r.news; at_end = r.at_end; rest = r.rest }
    else if eqb (code c) 43
    then record { olds = r.olds; news = t ∷ r.news; at_end = r.at_end; rest = r.rest }
    else r

abbrev pub no_lines : Bool → List String → ChunkLines
no_lines e ls = record { olds = []; news = []; at_end = e; rest = ls }

-- The loop over the lines of one chunk.
unfoldable pub chunk_lines : List String → ChunkLines
unfolding is_header is_chunk_start is_end_of_file chunk_line
chunk_lines [] = no_lines false []
chunk_lines (l ∷ ls) =
    let later = chunk_lines ls in
    if is_chunk_start l
    then no_lines false (l ∷ ls)
    else if is_end_of_file l
    then no_lines true ls
    else if is_header l
    then no_lines false (l ∷ ls)
    else chunk_line l later

-- `contextLine || undefined`
abbrev pub unless_empty : String → Option String
unless_empty String.[] = none
unless_empty (String.◌∷◌ c s) = some (String.◌∷◌ c s)

unfoldable pub chunk_of : String → ChunkLines → PatchChunk
unfolding trim_start trim_end
chunk_of context r = record {
  old_lines = r.olds;
  new_lines = r.news;
  change_context = unless_empty (trim context);
  end_of_file = r.at_end;
}

-- The loop over the chunks of an update: the chunks, and the lines from the next header on.
unfoldable pub chunk_loop : ℕ → List String → Option (List PatchChunk × List String)
unfolding is_header is_end_of_file chunk_lines strip_prefix chunk_of
chunk_loop n [] = some ([], [])
chunk_loop zero (l ∷ ls) = none
chunk_loop (suc n) (l ∷ ls) = elim (strip_prefix "@@" l) [
  | some context ↦
      let r = chunk_lines ls in
      bind (chunk_loop n r.rest) (λ later. some (chunk_of context r ∷ later.0, later.1))
  | none ↦ elim (is_end_of_file l || not (is_header l)) [
    | true ↦ chunk_loop n ls
    | false ↦ some ([], l ∷ ls)
  ]
]

unfoldable pub move_line : List String → Option String × List String
unfolding strip_prefix trim_start trim_end
move_line [] = (none, [])
move_line (l ∷ ls) = elim (strip_prefix "*** Move to: " l) [
  | none ↦ (none, l ∷ ls)
  | some t ↦ (some (trim t), ls)
]

unfoldable pub add_operation : String → String → PatchOperation
unfolding trim_start trim_end drop_newline
add_operation path content = record {
  type = add;
  file_path = trim path;
  target_path = none;
  add_content = some (drop_newline content);
  chunks = [];
}

unfoldable pub delete_operation : String → PatchOperation
unfolding trim_start trim_end
delete_operation path = record {
  type = delete;
  file_path = trim path;
  target_path = none;
  add_content = none;
  chunks = [];
}

unfoldable pub update_operation : String → Option String → List PatchChunk → PatchOperation
unfolding trim_start trim_end
update_operation path target cs =
    let moved = bind target unless_empty in
    record {
      type = elim moved [ none ↦ update | some t ↦ move ];
      file_path = trim path;
      target_path = moved;
      add_content = none;
      chunks = cs;
    }

-- One round of the loop over the body, at a line and the lines behind it: the operation, if the line
-- starts one, and the lines that are left.
unfoldable pub parse_next : String → List String → Option (Option PatchOperation × List String)
unfolding strip_prefix add_lines skip_lines move_line chunk_loop add_operation delete_operation
    update_operation
parse_next l ls = elim (strip_prefix "*** Add File: " l) [
  | some path ↦ let r = add_lines ls in some (some (add_operation path r.0), r.1)
  | none ↦ elim (strip_prefix "*** Delete File: " l) [
    | some path ↦ some (some (delete_operation path), skip_lines ls)
    | none ↦ elim (strip_prefix "*** Update File: " l) [
      | some path ↦
          let m = move_line ls in
          bind (chunk_loop (length m.1) m.1) (λ r. some (some (update_operation path m.0 r.0), r.1))
      | none ↦ some (none, ls)
    ]
  ]
]

abbrev pub push_some {ℓ} : {A : Type ℓ} → Option A → List A → List A
push_some none l = l
push_some (some a) l = a ∷ l

-- The loop over the body.
unfoldable pub parse_body : ℕ → List String → Option (List PatchOperation)
unfolding parse_next
parse_body n [] = some []
parse_body zero (l ∷ ls) = none
parse_body (suc n) (l ∷ ls) =
    bind (parse_next l ls) (λ r. bind (parse_body n r.1) (λ later. some (push_some r.0 later)))

-- `lines.findIndex((l) => l.trim() === marker)`
unfoldable pub find_marker : String → List String → Option ℕ
unfolding same_text trim_start trim_end
find_marker marker [] = none
find_marker marker (l ∷ ls) =
    let later = find_marker marker ls in
    if same_text (trim l) marker then some 0 else bind later (λ i. some (suc i))

-- `lines.slice(begin + 1, end)`, where both markers stand and in this order.
unfoldable pub body_of : List String → Option (List String)
unfolding find_marker
body_of ls = bind (find_marker "*** Begin Patch" ls) (λ b.
    bind (find_marker "*** End Patch" ls)
      (λ e. if leb e b then none else some (take (e - suc b) (drop (suc b) ls))))

unfoldable pub parse_patch : String → ParseResult
unfolding strip_heredoc split_lines body_of parse_body
parse_patch raw = elim (body_of (split_lines (strip_heredoc raw))) [
  | none ↦ invalid_format
  | some body ↦ elim (parse_body (length body) body) [ none ↦ out_of_fuel | some ops ↦ parsed ops ]
]

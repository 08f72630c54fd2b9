-- ===== src/Patch/Printer.antt =====
-- The patch format of packages/agentlayer-core/src/utils/patch-parser.ts, written: edits on files and
-- the lines that stand for them.
use Prim.Native.String.{String}
use agentlayer.Prelude.{Bool, true, false, Option, none, some, List, [], ◌∷◌, ◌++◌, ◌≡◌, All}
use agentlayer.Prelude.Texts.{join_text, join_lines, split_lines, trim}
use agentlayer.Patch.{PatchChunk, PatchOperation, add, update, delete, move, is_empty}
use agentlayer.Patch.Lines.{IsLine}

-- What a patch can ask for: `target` is where a file is moved to.
pub data FileEdit : Type 0 where
  add_file : (path content : String) → FileEdit
  delete_file : (path : String) → FileEdit
  update_file : (path : String) (target : Option String) (chunks : List PatchChunk) → FileEdit

abbrev pub operation_of : FileEdit → PatchOperation
operation_of (add_file path content) = record {
  type = add;
  file_path = path;
  target_path = none;
  add_content = some content;
  chunks = [];
}
operation_of (delete_file path) = record {
  type = delete;
  file_path = path;
  target_path = none;
  add_content = none;
  chunks = [];
}
operation_of (update_file path none cs) = record {
  type = update;
  file_path = path;
  target_path = none;
  add_content = none;
  chunks = cs;
}
operation_of (update_file path (some target) cs) = record {
  type = move;
  file_path = path;
  target_path = some target;
  add_content = none;
  chunks = cs;
}

abbrev pub print_context : Option String → String
print_context none = "@@"
print_context (some t) = join_text "@@ " t

abbrev pub end_line : Bool → List String → List String
end_line true rest = "*** End of File" ∷ rest
end_line false rest = rest

-- The lines with a sign in front of each, before the rest.
abbrev pub signed : String → List String → List String → List String
signed sign [] rest = rest
signed sign (l ∷ ls) rest = join_text sign l ∷ signed sign ls rest

unfoldable pub print_chunk : PatchChunk → List String → List String
unfolding join_text
print_chunk c rest =
    print_context c.change_context
    ∷ signed "-" c.old_lines (signed "+" c.new_lines (end_line c.end_of_file rest))

unfoldable pub print_chunks : List PatchChunk → List String → List String
unfolding print_chunk
print_chunks [] rest = rest
print_chunks (c ∷ cs) rest = print_chunk c (print_chunks cs rest)

abbrev pub print_target : Option String → List String → List String
print_target none rest = rest
print_target (some t) rest = join_text "*** Move to: " t ∷ rest

unfoldable pub print_edit : FileEdit → List String → List String
unfolding split_lines join_text print_chunks
print_edit (add_file path content) rest =
    join_text "*** Add File: " path ∷ signed "+" (split_lines content) rest
print_edit (delete_file path) rest = join_text "*** Delete File: " path ∷ rest
print_edit (update_file path target cs) rest =
    join_text "*** Update File: " path ∷ print_target target (print_chunks cs rest)

unfoldable pub print_edits : List FileEdit → List String → List String
unfolding print_edit
print_edits [] rest = rest
print_edits (e ∷ es) rest = print_edit e (print_edits es rest)

unfoldable pub print_patch : List FileEdit → String
unfolding print_edits join_text join_lines
print_patch es =
    join_text "*** Begin Patch\n" (join_lines (print_edits es [] ++ ("*** End Patch" ∷ [])))

-- A text on one line without spaces at its ends.
abbrev pub IsTrimmed : String → Type 0
IsTrimmed s = (trim s ≡ s) × IsLine s

abbrev pub IsName : String → Type 0
IsName s = IsTrimmed s × (is_empty s ≡ false)

abbrev pub IsContext : Option String → Type 0
IsContext none = Unit
IsContext (some s) = IsName s

abbrev pub IsPrintableChunk : PatchChunk → Type 0
IsPrintableChunk c = IsContext c.change_context × All IsLine c.old_lines × All IsLine c.new_lines

abbrev pub IsPrintable : FileEdit → Type 0
IsPrintable (add_file path content) = IsTrimmed path
IsPrintable (delete_file path) = IsTrimmed path
IsPrintable (update_file path target cs) =
    IsTrimmed path × IsContext target × All IsPrintableChunk cs

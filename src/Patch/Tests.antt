-- ===== src/Patch/Tests.antt =====
-- Patches that are read and applied, for packages/agentlayer-core/src/utils/patch-parser.ts.
use Prim.Native.String.{String}
use agentlayer.Prelude.{
  true, false, Option, none, some, List, [], ◌∷◌, map, ◌≡◌, ◌≢◌, refl, inl, inr, ◌↔◌, arith, All,
}
use agentlayer.Prelude.Texts.{
  strip_prefix, same_text, trim_start, trim_end, split_lines, join_lines,
}
use agentlayer.Patch.{
  PatchChunk, PatchOperation, update, delete, parsed, invalid_format, out_of_fuel, parse_patch,
}
use agentlayer.Patch.Heredoc.{strip_heredoc}
use agentlayer.Patch.Seek.{seek_sequence}
use agentlayer.Patch.Apply.{
  context_not_found, Replacement, apply_update_chunks, compute_replacements, apply_replacements,
  validate_hunks,
}
use agentlayer.Patch.Lines.{no_newline}
use agentlayer.Patch.Located.{Sought, seek_sequence-Sought}
use agentlayer.Patch.Placed.{ArePlaced, compute_replacements-rewrite_from}
use agentlayer.Patch.Splice.{rewrite_from}
use agentlayer.Patch.Validated.{Applies, validate_hunks-Applies_iff}
use agentlayer.Patch.Total.{parse_patch-terminates}
use agentlayer.Patch.Printer.{
  FileEdit, add_file, delete_file, update_file, operation_of, print_patch, IsPrintable,
}
use agentlayer.Patch.RoundTrip.{parse_patch-print_patch}

abbrev renamed : PatchChunk
renamed = record {
  old_lines = "b" ∷ [];
  new_lines = "c" ∷ "" ∷ [];
  change_context = some "a";
  end_of_file = true;
}

abbrev edits : List FileEdit
edits =
    add_file "new.ts" "one\n\ntwo"
    ∷ update_file "old.ts" (some "moved.ts") (renamed ∷ [])
    ∷ delete_file "gone.ts"
    ∷ []

edits-IsPrintable : All IsPrintable edits
unfolding trim_start trim_end no_newline
edits-IsPrintable = (
  (refl, refl),
  (
    (
      (refl, refl),
      ((refl, refl), refl),
      ((((refl, refl), refl), (refl, tt), (refl, (refl, tt))), tt),
    ),
    ((refl, refl), tt),
  ),
)

parse_patch-print_patch_example : parse_patch (print_patch edits) ≡ parsed (map operation_of edits)
parse_patch-print_patch_example = parse_patch-print_patch edits edits-IsPrintable

parse_patch-terminates_example : parse_patch "*** Begin Patch\n@@\n*** End Patch" ≢ out_of_fuel
parse_patch-terminates_example = parse_patch-terminates "*** Begin Patch\n@@\n*** End Patch"

heredoc_is_stripped :
    strip_heredoc "cat <<'EOF'\n*** Begin Patch\n*** End Patch\nEOF\n"
    ≡ "*** Begin Patch\n*** End Patch"
unfolding strip_heredoc trim_start trim_end strip_prefix same_text
heredoc_is_stripped = refl

unmarked_is_invalid : parse_patch "*** End Patch\n*** Begin Patch" ≡ invalid_format
unfolding parse_patch strip_heredoc trim_start trim_end strip_prefix same_text split_lines
unmarked_is_invalid = refl

abbrev file : List String
file = "a" ∷ "b " ∷ "d" ∷ []

seek_sequence-Sought_example :
    Sought file ("b" ∷ "d" ∷ []) 1 (seek_sequence file ("b" ∷ "d" ∷ []) 1 true)
seek_sequence-Sought_example = seek_sequence-Sought file "b" ("d" ∷ []) 1 true

abbrev unanchored : PatchChunk
unanchored = record {
  old_lines = "b" ∷ "d" ∷ [];
  new_lines = "c" ∷ [];
  change_context = some "a";
  end_of_file = false;
}

abbrev replaced : List Replacement
replaced = record { start = 1; old_length = 2; segment = "c" ∷ [] } ∷ []

unanchored_is_placed : compute_replacements file (unanchored ∷ []) ≡ inr replaced
unfolding compute_replacements seek_sequence same_text trim_start trim_end
unanchored_is_placed = refl

compute_replacements-rewrite_from_example :
    ArePlaced file 0 (unanchored ∷ []) replaced
    × (apply_replacements file replaced ≡ rewrite_from 0 file replaced)
compute_replacements-rewrite_from_example =
    compute_replacements-rewrite_from file (unanchored ∷ []) replaced (omega arith, tt)
      unanchored_is_placed

crlf_is_kept : apply_update_chunks "a\r\nb\r\nd\r\n" (unanchored ∷ []) ≡ inr "a\r\nc\r\n"
unfolding apply_update_chunks compute_replacements seek_sequence same_text trim_start trim_end
    split_lines join_lines
crlf_is_kept = refl

missing_context_fails : apply_update_chunks "x\nb" (unanchored ∷ []) ≡ inl (context_not_found "a")
unfolding apply_update_chunks compute_replacements seek_sequence same_text trim_start trim_end
    split_lines join_lines
missing_context_fails = refl

abbrev read_file : String → Option String
read_file path = some "a\nb\nd\n"

abbrev operations : List PatchOperation
operations =
    record {
      type = update;
      file_path = "old.ts";
      target_path = none;
      add_content = none;
      chunks = unanchored ∷ [];
    }
    ∷ record {
      type = delete;
      file_path = "gone.ts";
      target_path = none;
      add_content = none;
      chunks = [];
    }
    ∷ []

validate_hunks-Applies_iff_example :
    (validate_hunks read_file operations ≡ none) ↔ All (Applies read_file) operations
validate_hunks-Applies_iff_example = validate_hunks-Applies_iff read_file operations

-- An addition without old lines goes before the empty last line; a later chunk that replaces this line
-- takes the added one with it.
abbrev added_then_replaced : List PatchChunk
added_then_replaced =
    record { old_lines = []; new_lines = "n" ∷ []; change_context = none; end_of_file = false }
    ∷ record {
      old_lines = "a" ∷ "" ∷ [];
      new_lines = "b" ∷ "" ∷ [];
      change_context = none;
      end_of_file = false;
    }
    ∷ []

added_line_is_lost : apply_update_chunks "a\n\n" added_then_replaced ≡ inr "b\n\n"
unfolding apply_update_chunks compute_replacements seek_sequence same_text trim_start trim_end
    split_lines join_lines
added_line_is_lost = refl

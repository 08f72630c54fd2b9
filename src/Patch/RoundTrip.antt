-- ===== src/Patch/RoundTrip.antt =====
-- The parser of packages/agentlayer-core/src/utils/patch-parser.ts on written patches.
use Prim.Native.String.{String}
use agentlayer.Prelude.{
  ℕ, zero, suc, ◌-◌, ◌≤◌, ◌<◌, Option, none, some, List, [], ◌∷◌, ◌++◌, map, ◌≡◌, refl, ap, ◌∙◌,
  arith, length, take, All, All-append, All-map, leb, if◌then◌else◌,
}
use agentlayer.Prelude.Texts.{
  split_lines, join_lines, join_text, trim_start, trim_end, strip_prefix, same_text,
}
use agentlayer.Patch.{
  PatchChunk, parsed, move_line, add_operation, delete_operation, update_operation, parse_next,
  parse_body, find_marker, body_of, parse_patch,
}
use agentlayer.Patch.Heredoc.{strip_heredoc, heredoc_body, drop_cat}
use agentlayer.Patch.Lines.{IsLine, no_newline, split_lines-join_lines}
use agentlayer.Patch.Printer.{
  FileEdit, add_file, delete_file, update_file, operation_of, print_context, print_chunk,
  print_chunks, print_edit, print_edits, print_patch, IsPrintable,
}
use agentlayer.Patch.Written.{IsInside, IsBody, print_edits-All}
use agentlayer.Patch.Loops.{
  AtHeader, print_edits-AtHeader, add_lines-signed, add_content-signed, length-signed,
  chunk_loop-print_chunks, length-print_chunk, unless_empty-some,
}

length-print_chunks :
    (cs : List PatchChunk) (rest : List String) → length rest ≤ length (print_chunks cs rest)
unfolding print_chunks
length-print_chunks [] rest = omega arith
length-print_chunks (c ∷ cs) rest =
    omega (arith, length-print_chunk c (print_chunks cs rest), length-print_chunks cs rest)

length-print_edit : (e : FileEdit) (rest : List String) → length rest < length (print_edit e rest)
unfolding print_edit
length-print_edit (add_file p c) rest = omega (arith, length-signed "+" (split_lines c) rest)
length-print_edit (delete_file p) rest = omega arith
length-print_edit (update_file p none cs) rest = omega (arith, length-print_chunks cs rest)
length-print_edit (update_file p (some t) cs) rest = omega (arith, length-print_chunks cs rest)

move_line-print_context :
    (o : Option String) (ls : List String)
    → move_line (print_context o ∷ ls) ≡ (none, print_context o ∷ ls)
unfolding move_line strip_prefix join_text
move_line-print_context none ls = refl
move_line-print_context (some t) ls = refl

-- No chunk is a move line.
move_line-print_chunks :
    (cs : List PatchChunk) (rest : List String)
    → AtHeader rest
    → move_line (print_chunks cs rest) ≡ (none, print_chunks cs rest)
unfolding print_chunks print_chunk
move_line-print_chunks [] rest h = h.moves
move_line-print_chunks (c ∷ cs) rest h = move_line-print_context c.change_context _

abbrev Read : FileEdit → List String → Type 0
Read e rest =
    (l : String) × (ls : List String) × (print_edit e rest ≡ l ∷ ls)
    × (parse_next l ls ≡ some (some (operation_of e), rest))

parse_next-print_edit :
    (e : FileEdit) (rest : List String) → IsPrintable e → AtHeader rest → Read e rest
unfolding print_edit parse_next strip_prefix join_text
parse_next-print_edit (add_file p c) rest (t, l) k = (
  _,
  _,
  refl,
  rw (add_lines-signed (split_lines c) rest k.adds)
      (rw (t, add_content-signed c, add_operation) refl),
)
parse_next-print_edit (delete_file p) rest (t, l) k =
    (_, _, refl, rw (k.skips, t, delete_operation) refl)
parse_next-print_edit (update_file p none cs) rest ((t, l), o, h) k = (
  _,
  _,
  refl,
  rw
      (
        move_line-print_chunks cs rest k,
        chunk_loop-print_chunks cs rest h k (length (print_chunks cs rest)) (omega arith),
        t,
        update_operation,
      )
      refl,
)
parse_next-print_edit (update_file p (some q) cs) rest ((t, l), o, h) k = (
  _,
  _,
  refl,
  rw
      (
        move_line,
        chunk_loop-print_chunks cs rest h k (length (print_chunks cs rest)) (omega arith),
        t,
        o.0.0,
        update_operation,
        unless_empty-some q o.1,
      )
      refl,
)

parse_body-nil : (n : ℕ) → parse_body n [] ≡ some []
unfolding parse_body
parse_body-nil zero = refl
parse_body-nil (suc n) = refl

parse_body-print_edits :
    (es : List FileEdit) (n : ℕ)
    → All IsPrintable es
    → length (print_edits es []) ≤ n
    → parse_body n (print_edits es []) ≡ some (map operation_of es)
unfolding print_edits parse_body
parse_body-print_edits [] n h le = parse_body-nil n
parse_body-print_edits (e ∷ es) zero h le =
    absurd (omega (arith, le, length-print_edit e (print_edits es [])))
parse_body-print_edits (e ∷ es) (suc n) (h, hs) le =
    let r = parse_next-print_edit e (print_edits es []) h (print_edits-AtHeader es) in
    let later =
      parse_body-print_edits es n hs (omega (arith, le, length-print_edit e (print_edits es []))) in
    rw (r.2, r.3, later, parse_body) refl

find_marker-end :
    (ls : List String)
    → All IsInside ls
    → find_marker "*** End Patch" (ls ++ ("*** End Patch" ∷ [])) ≡ some (length ls)
unfolding find_marker same_text trim_start trim_end
find_marker-end [] h = refl
find_marker-end (l ∷ ls) (h, hs) = rw (h, find_marker-end ls hs) refl

take-append : (ls rest : List String) → take (length ls) (ls ++ rest) ≡ ls
take-append [] rest = refl
take-append (l ∷ ls) rest = rw (take-append ls rest) refl

between :
    (n : ℕ) (ls : List String)
    → (if leb (suc n) 0 then none else some (take (suc n - 1) ls)) ≡ some (take n ls)
between n ls = ground arith

body_of-marked :
    (ls : List String)
    → All IsInside ls
    → body_of ("*** Begin Patch" ∷ (ls ++ ("*** End Patch" ∷ []))) ≡ some ls
unfolding body_of find_marker same_text trim_start trim_end
body_of-marked ls h = rw (find_marker-end ls h) (
    between (length ls) (ls ++ ("*** End Patch" ∷ []))
    ∙ ap (λ (l : List String). some l) (take-append ls ("*** End Patch" ∷ [])))

split_lines-marked :
    (ls : List String) (k : String)
    → All IsLine (ls ++ (k ∷ []))
    → split_lines (join_lines (ls ++ (k ∷ []))) ≡ ls ++ (k ∷ [])
split_lines-marked [] k h = split_lines-join_lines k [] h
split_lines-marked (l ∷ ls) k h = split_lines-join_lines l (ls ++ (k ∷ [])) h

split_lines-print_patch :
    (es : List FileEdit)
    → All IsPrintable es
    → split_lines (strip_heredoc (print_patch es))
      ≡ "*** Begin Patch" ∷ (print_edits es [] ++ ("*** End Patch" ∷ []))
unfolding print_patch split_lines strip_heredoc heredoc_body drop_cat strip_prefix join_text
    trim_start trim_end no_newline
split_lines-print_patch es h =
    ap (λ (ls : List String). "*** Begin Patch" ∷ ls)
      (split_lines-marked (print_edits es []) "*** End Patch" (
        All-append IsLine (print_edits es []) _
          (All-map IsBody IsLine (λ l b. b.1) (print_edits es []) (print_edits-All es h))
          (refl, tt)))

-- What is written to a patch is read back: for edits whose paths, targets and contexts are trimmed and
-- on one line, targets and contexts not empty, and whose chunk lines hold no newline, parse_patch of
-- the written text gives their operations, in their order and with all their fields.
pub parse_patch-print_patch :
    (es : List FileEdit)
    → All IsPrintable es
    → parse_patch (print_patch es) ≡ parsed (map operation_of es)
unfolding parse_patch
parse_patch-print_patch es h =
    let inside = All-map IsBody IsInside (λ l b. b.0) (print_edits es []) (print_edits-All es h) in
    rw
      (
        split_lines-print_patch es h,
        body_of-marked (print_edits es []) inside,
        parse_body-print_edits es (length (print_edits es [])) h (omega arith),
        parse_patch,
      )
      refl

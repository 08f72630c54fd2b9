-- ===== src/Patch/Written.antt =====
-- The written lines of a patch: none holds a newline, and none ends the patch.
use Prim.Native.String.{String}
use agentlayer.Prelude.{Bool, true, false, Option, none, some, List, [], ◌∷◌, ◌≡◌, refl, All}
use agentlayer.Prelude.Texts.{split_lines, join_text, trim, trim_start, trim_end, same_text}
use agentlayer.Patch.{PatchChunk}
use agentlayer.Patch.Lines.{IsLine, no_newline, split_lines-All}
use agentlayer.Patch.Printer.{
  FileEdit, add_file, delete_file, update_file, print_context, end_line, signed, print_chunk,
  print_chunks, print_edit, print_edits, IsContext, IsPrintableChunk, IsPrintable,
}

abbrev pub IsInside : String → Type 0
IsInside l = same_text (trim l) "*** End Patch" ≡ false

abbrev pub IsBody : String → Type 0
IsBody l = IsInside l × IsLine l

added-All :
    (ls rest : List String) → All IsLine ls → All IsBody rest → All IsBody (signed "+" ls rest)
unfolding same_text trim_start trim_end join_text no_newline
added-All [] rest k h = h
added-All (l ∷ ls) rest (k, ks) h = ((refl, k), added-All ls rest ks h)

removed-All :
    (ls rest : List String) → All IsLine ls → All IsBody rest → All IsBody (signed "-" ls rest)
unfolding same_text trim_start trim_end join_text no_newline
removed-All [] rest k h = h
removed-All (l ∷ ls) rest (k, ks) h = ((refl, k), removed-All ls rest ks h)

end_line-All : (e : Bool) (rest : List String) → All IsBody rest → All IsBody (end_line e rest)
unfolding same_text trim_start trim_end no_newline
end_line-All true rest h = ((refl, refl), h)
end_line-All false rest h = h

print_context-IsBody : (o : Option String) → IsContext o → IsBody (print_context o)
unfolding same_text trim_start trim_end join_text no_newline
print_context-IsBody none k = (refl, refl)
print_context-IsBody (some t) ((e, l), f) = (refl, l)

print_chunks-All :
    (cs : List PatchChunk) (rest : List String)
    → All IsPrintableChunk cs
    → All IsBody rest
    → All IsBody (print_chunks cs rest)
unfolding print_chunks print_chunk
print_chunks-All [] rest k h = h
print_chunks-All (c ∷ cs) rest ((a, o, n), ks) h = (
  print_context-IsBody c.change_context a,
  removed-All c.old_lines _ o
      (added-All c.new_lines _ n (end_line-All c.end_of_file _ (print_chunks-All cs rest ks h))),
)

print_edit-All :
    (e : FileEdit) (rest : List String)
    → IsPrintable e
    → All IsBody rest
    → All IsBody (print_edit e rest)
unfolding print_edit same_text trim_start trim_end join_text no_newline
print_edit-All (add_file p c) rest (t, l) h =
    ((refl, l), added-All (split_lines c) rest (split_lines-All c) h)
print_edit-All (delete_file p) rest (t, l) h = ((refl, l), h)
print_edit-All (update_file p none cs) rest ((t, l), o, k) h =
    ((refl, l), print_chunks-All cs rest k h)
print_edit-All (update_file p (some q) cs) rest ((t, l), o, k) h =
    ((refl, l), ((refl, o.0.1), print_chunks-All cs rest k h))

pub print_edits-All : (es : List FileEdit) → All IsPrintable es → All IsBody (print_edits es [])
unfolding print_edits
print_edits-All [] _ = tt
print_edits-All (e ∷ es) (k, ks) = print_edit-All e (print_edits es []) k (print_edits-All es ks)

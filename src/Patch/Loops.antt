-- ===== src/Patch/Loops.antt =====
-- Each loop of parsePatch in packages/agentlayer-core/src/utils/patch-parser.ts, on the lines that
-- Printer writes.
use Prim.Native.String.{String}
use agentlayer.Prelude.{
  ℕ, zero, suc, ◌≤◌, ◌<◌, Bool, true, false, Option, none, some, List, [], ◌∷◌, ◌≡◌, refl, sym, ap,
  ◌∙◌, arith, length, All, bind,
}
use agentlayer.Prelude.Texts.{
  split_lines, join_lines, join_text, trim, trim_start, trim_end, strip_prefix, same_text,
  after_space,
}
use agentlayer.Patch.{
  PatchChunk, is_header, is_chunk_start, is_end_of_file, add_lines, add_line, skip_lines, no_lines,
  chunk_line, chunk_lines, chunk_loop, chunk_of, move_line, unless_empty, is_empty, drop_newline,
}
use agentlayer.Patch.Lines.{
  with_newlines, drop_newline-with_newlines, join_lines-split_lines, split_lines-cons,
}
use agentlayer.Patch.Printer.{
  FileEdit, add_file, delete_file, update_file, print_context, end_line, signed, print_chunk,
  print_chunks, print_edit, print_edits, IsContext, IsPrintableChunk,
}

-- The lines at which each loop of the parser stops.
pub record AtHeader (rest : List String) : Type 0 where
  pub adds : add_lines rest ≡ ("", rest)
  pub skips : skip_lines rest ≡ rest
  pub chunk : chunk_lines rest ≡ no_lines false rest
  pub chunks : (n : ℕ) → length rest ≤ n → chunk_loop n rest ≡ some ([], rest)
  pub moves : move_line rest ≡ (none, rest)

chunk_loop-header :
    (l : String) (ls : List String)
    → strip_prefix "@@" l ≡ none
    → is_end_of_file l ≡ false
    → is_header l ≡ true
    → (n : ℕ) → length (l ∷ ls) ≤ n
    → chunk_loop n (l ∷ ls) ≡ some ([], l ∷ ls)
unfolding chunk_loop
chunk_loop-header l ls a b c zero h = absurd (omega arith)
chunk_loop-header l ls a b c (suc n) h = rw (a, b, c, chunk_loop) refl

pub print_edits-AtHeader : (es : List FileEdit) → AtHeader (print_edits es [])
unfolding print_edits print_edit add_lines skip_lines chunk_lines chunk_loop move_line is_header
    is_chunk_start is_end_of_file strip_prefix same_text join_text
print_edits-AtHeader [] = record {
  adds = refl;
  skips = refl;
  chunk = refl;
  chunks = λ n h. refl;
  moves = refl;
}
print_edits-AtHeader (add_file p c ∷ es) = record {
  adds = refl;
  skips = refl;
  chunk = refl;
  chunks = chunk_loop-header _ _ refl refl refl;
  moves = refl;
}
print_edits-AtHeader (delete_file p ∷ es) = record {
  adds = refl;
  skips = refl;
  chunk = refl;
  chunks = chunk_loop-header _ _ refl refl refl;
  moves = refl;
}
print_edits-AtHeader (update_file p t cs ∷ es) = record {
  adds = refl;
  skips = refl;
  chunk = refl;
  chunks = chunk_loop-header _ _ refl refl refl;
  moves = refl;
}

pub add_lines-signed :
    (ls rest : List String)
    → add_lines rest ≡ ("", rest)
    → add_lines (signed "+" ls rest) ≡ (with_newlines ls, rest)
unfolding add_lines add_line is_header strip_prefix join_text with_newlines
add_lines-signed [] rest h = h
add_lines-signed (l ∷ ls) rest h = rw (add_lines-signed ls rest h) refl

-- The content that an added file's lines stand for.
pub add_content-signed :
    (content : String) → drop_newline (with_newlines (split_lines content)) ≡ content
add_content-signed content =
    let s = split_lines-cons content in
    rw s.2 (drop_newline-with_newlines s.0 s.1)
    ∙ ap join_lines (sym s.2)
    ∙ join_lines-split_lines content

chunk_lines-signed :
    (olds news rest : List String) (e : Bool)
    → chunk_lines rest ≡ no_lines false rest
    → chunk_lines (signed "-" olds (signed "+" news (end_line e rest)))
      ≡ record { olds = olds; news = news; at_end = e; rest = rest }
unfolding chunk_lines chunk_line is_header is_chunk_start is_end_of_file strip_prefix same_text
    join_text
chunk_lines-signed [] [] rest true h = refl
chunk_lines-signed [] [] rest false h = h
chunk_lines-signed [] (l ∷ ls) rest e h = rw (chunk_lines-signed [] ls rest e h) refl
chunk_lines-signed (l ∷ ls) news rest e h = rw (chunk_lines-signed ls news rest e h) refl

trim-space : (t : String) → trim (String.◌∷◌ " " t) ≡ trim t
unfolding trim_start trim_end
trim-space t = spaced (trim_end t)
  where
    spaced : (s : String) → trim_start (after_space " " s) ≡ trim_start s
    spaced String.[] = refl
    spaced (String.◌∷◌ c s) = refl

pub unless_empty-some : (t : String) → is_empty t ≡ false → unless_empty t ≡ some t
unless_empty-some String.[] e = absurd (cc)
unless_empty-some (String.◌∷◌ c t) e = refl

pub length-signed :
    (sign : String) (ls rest : List String) → length rest ≤ length (signed sign ls rest)
length-signed sign [] rest = omega arith
length-signed sign (l ∷ ls) rest = omega (arith, length-signed sign ls rest)

length-end_line : (e : Bool) (rest : List String) → length rest ≤ length (end_line e rest)
length-end_line true rest = omega arith
length-end_line false rest = omega arith

pub length-print_chunk :
    (c : PatchChunk) (rest : List String) → length rest < length (print_chunk c rest)
unfolding print_chunk
length-print_chunk c rest = omega (
  arith,
  length-signed "-" c.old_lines (signed "+" c.new_lines (end_line c.end_of_file rest)),
  length-signed "+" c.new_lines (end_line c.end_of_file rest),
  length-end_line c.end_of_file rest,
)

-- What the parser reads behind `@@`.
print_context-read :
    (context : Option String)
    → IsContext context
    → (t : String) × (strip_prefix "@@" (print_context context) ≡ some t)
      × (unless_empty (trim t) ≡ context)
unfolding strip_prefix join_text trim_start trim_end
print_context-read none h = ("", refl, refl)
print_context-read (some t) ((e, l), f) =
    (String.◌∷◌ " " t, refl, ap unless_empty (trim-space t ∙ e) ∙ unless_empty-some t f)

chunk_of-read :
    (c : PatchChunk) (t : String) (rest : List String)
    → unless_empty (trim t) ≡ c.change_context
    → (o : Option (List PatchChunk × List String))
    → bind {B = List PatchChunk × List String} o (λ later. some (
      chunk_of t
            (record { olds = c.old_lines; news = c.new_lines; at_end = c.end_of_file; rest = rest })
          ∷ later.0,
      later.1,
    ))
      ≡ bind {B = List PatchChunk × List String} o (λ later. some (c ∷ later.0, later.1))
unfolding chunk_of
chunk_of-read c t rest e o = rw e refl

-- One chunk is read back, and the loop goes on behind it.
chunk_loop-print_chunk :
    (c : PatchChunk) (rest : List String) (n : ℕ)
    → IsPrintableChunk c
    → chunk_lines rest ≡ no_lines false rest
    → chunk_loop (suc n) (print_chunk c rest)
      ≡ bind {B = List PatchChunk × List String}
          (chunk_loop n rest)
          (λ later. some (c ∷ later.0, later.1))
unfolding chunk_loop print_chunk
chunk_loop-print_chunk c rest n h k =
    let r = print_context-read c.change_context h.0 in
    rw (r.1, chunk_loop, chunk_lines-signed c.old_lines c.new_lines rest c.end_of_file k)
      (chunk_of-read c r.0 rest r.2 (chunk_loop n rest))

abbrev pub Chunked : List PatchChunk → List String → Type 0
Chunked cs rest =
    (n : ℕ)
    → length (print_chunks cs rest) ≤ n
    → chunk_loop n (print_chunks cs rest) ≡ some (cs, rest)

pub print_context-stops :
    (context : Option String) (ls : List String)
    → chunk_lines (print_context context ∷ ls) ≡ no_lines false (print_context context ∷ ls)
unfolding chunk_lines is_chunk_start strip_prefix join_text
print_context-stops none ls = refl
print_context-stops (some t) ls = refl

print_chunks-stops :
    (cs : List PatchChunk) (rest : List String)
    → chunk_lines rest ≡ no_lines false rest
    → chunk_lines (print_chunks cs rest) ≡ no_lines false (print_chunks cs rest)
unfolding print_chunks print_chunk
print_chunks-stops [] rest h = h
print_chunks-stops (c ∷ cs) rest h = print_context-stops c.change_context _

pub chunk_loop-print_chunks :
    (cs : List PatchChunk) (rest : List String)
    → All IsPrintableChunk cs
    → AtHeader rest
    → Chunked cs rest
unfolding print_chunks
chunk_loop-print_chunks [] rest h k n le = k.chunks n le
chunk_loop-print_chunks (c ∷ cs) rest (h, hs) k zero le =
    absurd (omega (arith, length-print_chunk c (print_chunks cs rest)))
chunk_loop-print_chunks (c ∷ cs) rest (h, hs) k (suc n) le =
    chunk_loop-print_chunk c (print_chunks cs rest) n h (print_chunks-stops cs rest k.chunk)
    ∙ rw
        (chunk_loop-print_chunks cs rest hs k n
          (omega (arith, le, length-print_chunk c (print_chunks cs rest))))
        refl

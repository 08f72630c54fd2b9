-- ===== src/Patch/Seek.antt =====
-- normalizeUnicode, tryMatch and seekSequence of
-- packages/agentlayer-core/src/utils/patch-parser.ts. The index -1 is `none`.
use Prim.Native.String.{String}
use Prim.Native.Char.{Char, code}
use agentlayer.Prelude.{
  ℕ, zero, suc, ◌+◌, ◌-◌, Bool, true, false, ◌&&◌, Option, none, some, List, [], ◌∷◌, if◌then◌else◌,
  eqb, leb, length, drop, or_else,
}
use agentlayer.Prelude.Texts.{same_text, trim, trim_start, trim_end, join_text}

abbrev pub plain_char : Char → String
plain_char c =
    if leb 0x2018 (code c) && leb (code c) 0x201b
    then "'"
    else if leb 0x201c (code c) && leb (code c) 0x201f
    then "\""
    else if leb 0x2010 (code c) && leb (code c) 0x2015
    then "-"
    else if eqb (code c) 0x2026
    then "..."
    else if eqb (code c) 0xa0
    then " "
    else String.◌∷◌ c String.[]

unfoldable pub normalize_unicode : String → String
unfolding join_text
normalize_unicode String.[] = String.[]
normalize_unicode (String.◌∷◌ c s) = join_text (plain_char c) (normalize_unicode s)

-- Whether the lines start with the pattern, line by line.
unfoldable pub matches_prefix : (String → String → Bool) → List String → List String → Bool
matches_prefix compare lines [] = true
matches_prefix compare [] (p ∷ ps) = false
matches_prefix compare (l ∷ ls) (p ∷ ps) = compare l p && matches_prefix compare ls ps

-- The forward search: `count` start indices from `i` on.
unfoldable pub search_from : (String → String → Bool) → List String → List String → ℕ → ℕ → Option ℕ
unfolding matches_prefix
search_from compare lines pattern zero i = none
search_from compare lines pattern (suc count) i =
    let later = search_from compare lines pattern count (suc i) in
    if matches_prefix compare (drop i lines) pattern then some i else later

-- The start indices of the forward search: from `start` to the last that leaves room.
abbrev pub candidates : List String → List String → ℕ → ℕ
candidates lines pattern start = suc (length lines) - (length pattern + start)

unfoldable pub try_match :
    List String → List String → ℕ → (String → String → Bool) → Bool → Option ℕ
unfolding matches_prefix search_from
try_match lines pattern start compare eof =
    let from_end = length lines - length pattern in
    if eof
      && leb (length pattern + start) (length lines)
      && matches_prefix compare (drop from_end lines) pattern
    then some from_end
    else search_from compare lines pattern (candidates lines pattern start) start

-- The four comparisons of the passes.
unfoldable pub same_exact : String → String → Bool
unfolding same_text
same_exact a b = same_text a b

unfoldable pub same_rstrip : String → String → Bool
unfolding same_text trim_end
same_rstrip a b = same_text (trim_end a) (trim_end b)

unfoldable pub same_trimmed : String → String → Bool
unfolding same_text trim_start trim_end
same_trimmed a b = same_text (trim a) (trim b)

unfoldable pub same_normalized : String → String → Bool
unfolding same_text trim_start trim_end normalize_unicode
same_normalized a b = same_text (normalize_unicode (trim a)) (normalize_unicode (trim b))

unfoldable pub four_passes : List String → List String → ℕ → Bool → Option ℕ
unfolding try_match same_exact same_rstrip same_trimmed same_normalized
four_passes haystack needle start eof = or_else (try_match haystack needle start same_exact eof) (
    or_else (try_match haystack needle start same_rstrip eof) (
      or_else (try_match haystack needle start same_trimmed eof)
        (try_match haystack needle start same_normalized eof)))

unfoldable pub seek_sequence : List String → List String → ℕ → Bool → Option ℕ
unfolding four_passes
seek_sequence haystack [] start eof = none
seek_sequence haystack (p ∷ ps) start eof = four_passes haystack (p ∷ ps) start eof

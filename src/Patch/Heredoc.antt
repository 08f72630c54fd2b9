-- ===== src/Patch/Heredoc.antt =====
-- stripHeredoc of packages/agentlayer-core/src/utils/patch-parser.ts. The regular expression is read
-- from left to right: the greedy `\w+` cannot give a character back, since what follows it is no word
-- character; the newline of `\s*\n` is the last of the run of spaces for which the rest matches; and
-- in a trimmed text `\n\1\s*$` is a newline and the word at its very end.
use Prim.Native.String.{String}
use Prim.Native.Char.{code}
use agentlayer.Prelude.{
  ℕ, Bool, ◌&&◌, ◌||◌, Option, none, some, if◌then◌else◌, eqb, leb, bind, or_else, or_value,
}
use agentlayer.Prelude.Texts.{
  is_space, strip_prefix, same_text, trim, trim_start, trim_end, join_text,
}

-- `\w`
abbrev pub is_word : ℕ → Bool
is_word c = (leb 97 c && leb c 122) || (leb 65 c && leb c 90) || (leb 48 c && leb c 57) || eqb c 95

-- The word at the start of a text, and what follows it.
unfoldable pub take_word : String → String × String
take_word String.[] = (String.[], String.[])
take_word (String.◌∷◌ c s) =
    let r = take_word s in
    if is_word (code c) then (String.◌∷◌ c r.0, r.1) else (String.[], String.◌∷◌ c s)

-- `['"]?`
unfoldable pub drop_quote : String → String
drop_quote String.[] = String.[]
drop_quote (String.◌∷◌ c s) = if eqb (code c) 39 || eqb (code c) 34 then s else String.◌∷◌ c s

-- `(?:cat\s+)?`: what follows `cat` and at least one space, else the text itself.
unfoldable pub drop_cat : String → String
unfolding strip_prefix trim_start
drop_cat s = elim (strip_prefix "cat" s) [
  | none ↦ s
  | some String.[] ↦ s
  | some (String.◌∷◌ c t) ↦ if is_space (code c) then trim_start t else s
]

-- What stands before the suffix at the text's end.
unfoldable pub body_before : String → String → Option String
unfolding same_text
body_before suffix String.[] = if same_text String.[] suffix then some String.[] else none
body_before suffix (String.◌∷◌ c s) =
    let later = body_before suffix s in
    if same_text (String.◌∷◌ c s) suffix
    then some String.[]
    else bind later (λ b. some (String.◌∷◌ c b))

-- `\s*\n([\s\S]*?)\n\1$`: the body behind the last newline of the leading spaces that fits.
unfoldable pub after_spaces : String → String → Option String
unfolding body_before
after_spaces suffix String.[] = none
after_spaces suffix (String.◌∷◌ c s) =
    let later = after_spaces suffix s in
    if is_space (code c)
    then or_else later (if eqb (code c) 10 then body_before suffix s else none)
    else none

unfoldable pub heredoc_body : String → Option String
unfolding strip_prefix drop_cat drop_quote take_word after_spaces join_text
heredoc_body s = bind (strip_prefix "<<" (drop_cat s)) (λ t.
    let w = take_word (drop_quote t) in
    elim w.0 [
      | String.[] ↦ none
      | String.◌∷◌ c v ↦ after_spaces (join_text "\n" w.0) (drop_quote w.1)
    ])

unfoldable pub strip_heredoc : String → String
unfolding heredoc_body trim_start trim_end
strip_heredoc s = or_value (heredoc_body (trim s)) s

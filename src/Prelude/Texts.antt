-- ===== src/Prelude/Texts.antt =====
-- Texts as the program cuts them: `trim`, `startsWith` with `slice`, `split('\n')` and `join`.
use Prim.Native.Nat.{ℕ}
use Prim.Native.Char.{Char, code}
use Prim.Native.String.{String}
use mathlib.Core.Bool.{Bool, true, false, ◌&&◌, ◌||◌}
use mathlib.Core.Option.{Option, none, some}
use mathlib.Core.List.{List}
use agentlayer.Prelude.Tests.{leb, eqb, if◌then◌else◌}

-- The white space of `trim` and of `\s`.
abbrev pub is_space : ℕ → Bool
is_space c =
    (leb 9 c && leb c 13)
    || eqb c 32
    || eqb c 160
    || eqb c 0x1680
    || (leb 0x2000 c && leb c 0x200a)
    || eqb c 0x2028
    || eqb c 0x2029
    || eqb c 0x202f
    || eqb c 0x205f
    || eqb c 0x3000
    || eqb c 0xfeff

unfoldable pub trim_start : String → String
trim_start String.[] = String.[]
trim_start (String.◌∷◌ c s) =
    let rest = trim_start s in if is_space (code c) then rest else String.◌∷◌ c s

-- A space is kept where something follows it.
abbrev pub after_space : Char → String → String
after_space c String.[] = String.[]
after_space c (String.◌∷◌ d s) = String.◌∷◌ c (String.◌∷◌ d s)

unfoldable pub trim_end : String → String
trim_end String.[] = String.[]
trim_end (String.◌∷◌ c s) =
    let rest = trim_end s in if is_space (code c) then after_space c rest else String.◌∷◌ c rest

abbrev pub trim : String → String
trim s = trim_start (trim_end s)

-- a + b, by clauses, so that it computes at a literal before a variable.
unfoldable pub join_text : String → String → String
join_text String.[] t = t
join_text (String.◌∷◌ c s) t = String.◌∷◌ c (join_text s t)

-- a === b, by clauses
unfoldable pub same_text : String → String → Bool
same_text String.[] String.[] = true
same_text String.[] (String.◌∷◌ d t) = false
same_text (String.◌∷◌ c s) String.[] = false
same_text (String.◌∷◌ c s) (String.◌∷◌ d t) = eqb (code c) (code d) && same_text s t

-- What follows the prefix, where the text starts with it.
unfoldable pub strip_prefix : String → String → Option String
strip_prefix String.[] s = some s
strip_prefix (String.◌∷◌ c p) String.[] = none
strip_prefix (String.◌∷◌ c p) (String.◌∷◌ d s) =
    let rest = strip_prefix p s in if eqb (code c) (code d) then rest else none

abbrev pub is_some {ℓ} : {A : Type ℓ} → Option A → Bool
is_some none = false
is_some (some a) = true

abbrev pub starts_with : String → String → Bool
starts_with p s = is_some (strip_prefix p s)

abbrev pub first_with : Char → List String → List String
first_with c List.[] = List.◌∷◌ (String.◌∷◌ c String.[]) List.[]
first_with c (List.◌∷◌ l ls) = List.◌∷◌ (String.◌∷◌ c l) ls

-- text.split('\n'), which is never empty
unfoldable pub split_lines : String → List String
split_lines String.[] = List.◌∷◌ String.[] List.[]
split_lines (String.◌∷◌ c s) =
    let rest = split_lines s in
    if eqb (code c) 10 then List.◌∷◌ String.[] rest else first_with c rest

-- lines.join('\n')
unfoldable pub join_lines : List String → String
unfolding join_text
join_lines List.[] = String.[]
join_lines (List.◌∷◌ l List.[]) = l
join_lines (List.◌∷◌ l (List.◌∷◌ k ls)) = join_text l (join_text "\n" (join_lines (List.◌∷◌ k ls)))

-- ===== src/Patch/Lines.antt =====
-- Lines of a text: cutting at newlines undoes joining by them, and the other way round.
use Prim.Native.String.{String}
use Prim.Native.Char.{Char, code}
use agentlayer.Prelude.{
  Bool, true, false, not, ◌&&◌, List, [], ◌∷◌, ◌≡◌, refl, ap, ◌∙◌, if◌then◌else◌, eqb, arith, All,
  Bool-cases, inl, inr, eqb→eq,
}
use text.Mathlib.TextEquality.{Char-path}
use agentlayer.Prelude.Texts.{split_lines, join_lines, join_text, first_with}
use agentlayer.Patch.{drop_newline}

unfoldable pub no_newline : String → Bool
no_newline String.[] = true
no_newline (String.◌∷◌ c s) = not (eqb (code c) 10) && no_newline s

abbrev pub IsLine : String → Type 0
IsLine l = no_newline l ≡ true

pub split_lines-join_text :
    (l t : String) → IsLine l → split_lines (join_text l (join_text "\n" t)) ≡ l ∷ split_lines t
unfolding split_lines join_text no_newline
split_lines-join_text String.[] t h = refl
split_lines-join_text (String.◌∷◌ c s) t h = elim (Bool-cases (eqb (code c) 10)) [
  | inl e ↦ absurd (ground (arith, e, h))
  | inr e ↦ rw (e, split_lines-join_text s t (rw e at h)) refl
]

pub split_lines-IsLine : (l : String) → IsLine l → split_lines l ≡ l ∷ []
unfolding split_lines no_newline
split_lines-IsLine String.[] h = refl
split_lines-IsLine (String.◌∷◌ c s) h = elim (Bool-cases (eqb (code c) 10)) [
  | inl e ↦ absurd (ground (arith, e, h))
  | inr e ↦ rw (e, split_lines-IsLine s (rw e at h)) refl
]

pub split_lines-join_lines :
    (l : String) (ls : List String)
    → All IsLine (l ∷ ls)
    → split_lines (join_lines (l ∷ ls)) ≡ l ∷ ls
unfolding join_lines
split_lines-join_lines l [] (h, _) = split_lines-IsLine l h
split_lines-join_lines l (k ∷ ls) (h, hs) =
    split_lines-join_text l (join_lines (k ∷ ls)) h
    ∙ ap (λ (t : List String). l ∷ t) (split_lines-join_lines k ls hs)

join_lines-first_with :
    (c : Char) (ls : List String) → join_lines (first_with c ls) ≡ String.◌∷◌ c (join_lines ls)
unfolding join_lines join_text
join_lines-first_with c [] = refl
join_lines-first_with c (l ∷ []) = refl
join_lines-first_with c (l ∷ (k ∷ ls)) = refl

abbrev at_newline : Bool → Char → List String → List String
at_newline b c rest = if b then "" ∷ rest else first_with c rest

at_newline-cons :
    (b : Bool) (c : Char) (rest : List String)
    → (l : String) × (ls : List String) × (at_newline b c rest ≡ l ∷ ls)
at_newline-cons true c rest = ("", rest, refl)
at_newline-cons false c [] = (String.◌∷◌ c "", [], refl)
at_newline-cons false c (l ∷ ls) = (String.◌∷◌ c l, ls, refl)

pub split_lines-cons : (s : String) → (l : String) × (ls : List String) × (split_lines s ≡ l ∷ ls)
unfolding split_lines
split_lines-cons String.[] = ("", [], refl)
split_lines-cons (String.◌∷◌ c s) = at_newline-cons (eqb (code c) 10) c (split_lines s)

join_lines-newline :
    (rest : List String)
    → ((l : String) × (ls : List String) × (rest ≡ l ∷ ls))
    → join_lines ("" ∷ rest) ≡ String.◌∷◌ "\n" (join_lines rest)
unfolding join_lines join_text
join_lines-newline rest (l, ls, e) = rw e refl

pub join_lines-split_lines : (s : String) → join_lines (split_lines s) ≡ s
unfolding split_lines join_lines
join_lines-split_lines String.[] = refl
join_lines-split_lines (String.◌∷◌ c s) = elim (Bool-cases (eqb (code c) 10)) [
  | inl e ↦
      rw (e, Char-path c "\n" (eqb→eq (code c) 10 e))
        (join_lines-newline (split_lines s) (split_lines-cons s)
          ∙ ap (String.◌∷◌ "\n") (join_lines-split_lines s))
  | inr e ↦
      rw e (join_lines-first_with c (split_lines s) ∙ ap (String.◌∷◌ c) (join_lines-split_lines s))
]

first_with-All :
    (c : Char) (ls : List String)
    → eqb (code c) 10 ≡ false
    → All IsLine ls
    → All IsLine (first_with c ls)
unfolding no_newline
first_with-All c [] e h = (rw e refl, tt)
first_with-All c (l ∷ ls) e (h, hs) = (rw e h, hs)

pub split_lines-All : (s : String) → All IsLine (split_lines s)
unfolding split_lines no_newline
split_lines-All String.[] = (refl, tt)
split_lines-All (String.◌∷◌ c s) = elim (Bool-cases (eqb (code c) 10)) [
  | inl e ↦ rw e (refl, split_lines-All s)
  | inr e ↦ rw e (first_with-All c (split_lines s) e (split_lines-All s))
]

-- The content that the loop over an added file's lines collects.
unfoldable pub with_newlines : List String → String
unfolding join_text
with_newlines [] = ""
with_newlines (l ∷ ls) = join_text l (join_text "\n" (with_newlines ls))

drop_newline-join_text :
    (l : String) (c : Char) (s : String)
    → drop_newline (join_text l (String.◌∷◌ c s)) ≡ join_text l (drop_newline (String.◌∷◌ c s))
unfolding drop_newline join_text
drop_newline-join_text String.[] c s = refl
drop_newline-join_text (String.◌∷◌ d String.[]) c s = refl
drop_newline-join_text (String.◌∷◌ d (String.◌∷◌ e l)) c s =
    ap (String.◌∷◌ d) (drop_newline-join_text (String.◌∷◌ e l) c s)

join_text-nil : (l : String) → join_text l "" ≡ l
unfolding join_text
join_text-nil String.[] = refl
join_text-nil (String.◌∷◌ c l) = ap (String.◌∷◌ c) (join_text-nil l)

abbrev IsFull : String → Type 0
IsFull s = (c : Char) × (t : String) × (s ≡ String.◌∷◌ c t)

with_newlines-cons : (l : String) (ls : List String) → IsFull (with_newlines (l ∷ ls))
unfolding with_newlines join_text
with_newlines-cons String.[] ls = ("\n", with_newlines ls, refl)
with_newlines-cons (String.◌∷◌ c l) ls = (c, join_text l (join_text "\n" (with_newlines ls)), refl)

drop_newline-newline :
    (s : String) → IsFull s → drop_newline (String.◌∷◌ "\n" s) ≡ String.◌∷◌ "\n" (drop_newline s)
unfolding drop_newline
drop_newline-newline s (c, t, e) = rw e refl

pub drop_newline-with_newlines :
    (l : String) (ls : List String) → drop_newline (with_newlines (l ∷ ls)) ≡ join_lines (l ∷ ls)
unfolding drop_newline with_newlines join_lines join_text
drop_newline-with_newlines l [] = drop_newline-join_text l "\n" "" ∙ join_text-nil l
drop_newline-with_newlines l (k ∷ ls) =
    drop_newline-join_text l "\n" (with_newlines (k ∷ ls))
    ∙ ap (λ (t : String). join_text l t)
        (drop_newline-newline (with_newlines (k ∷ ls)) (with_newlines-cons k ls)
          ∙ ap (String.◌∷◌ "\n") (drop_newline-with_newlines k ls))

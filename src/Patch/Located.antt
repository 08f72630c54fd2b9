-- ===== src/Patch/Located.antt =====
-- tryMatch and seekSequence of packages/agentlayer-core/src/utils/patch-parser.ts: where the lines are
-- found, and when they are not.
use Prim.Native.String.{String}
use Prim.Native.Char.{code}
use agentlayer.Prelude.{
  ℕ, zero, suc, ◌+◌, ◌-◌, ◌≤◌, ◌<◌, Bool, true, false, ◌&&◌, Option, none, some, List, [], ◌∷◌, ◌≡◌,
  refl, sym, arith, length, drop, leb, eqb, or_else, Bool-cases, Option-cases, inl, inr, eqb→eq,
}
use agentlayer.Prelude.Texts.{same_text, trim, trim_end}
use text.Mathlib.TextEquality.{Char-path}
use agentlayer.Patch.Seek.{
  normalize_unicode, matches_prefix, search_from, candidates, try_match, same_exact, same_rstrip,
  same_trimmed, same_normalized, four_passes, seek_sequence,
}

same_text→eq : (a b : String) → same_text a b ≡ true → a ≡ b
unfolding same_text
same_text→eq String.[] String.[] h = refl
same_text→eq String.[] (String.◌∷◌ d t) h = absurd (cc)
same_text→eq (String.◌∷◌ c s) String.[] h = absurd (cc)
same_text→eq (String.◌∷◌ c s) (String.◌∷◌ d t) h = elim (Bool-cases (eqb (code c) (code d))) [
  | inl e ↦ rw (Char-path c d (eqb→eq (code c) (code d) e), same_text→eq s t (rw e at h)) refl
  | inr e ↦ absurd (ground (arith, e, h))
]

same_text_refl : (a : String) → same_text a a ≡ true
unfolding same_text
same_text_refl String.[] = refl
same_text_refl (String.◌∷◌ c s) = ground (arith, same_text_refl s)

-- Each comparison accepts what the one before it accepts.
abbrev Weaker : (String → String → Bool) → (String → String → Bool) → Type 0
Weaker f g = (a b : String) → f a b ≡ true → g a b ≡ true

same_exact-Weaker : Weaker same_exact same_normalized
unfolding same_exact same_normalized
same_exact-Weaker a b h = rw (same_text→eq a b h) (same_text_refl (normalize_unicode (trim b)))

same_rstrip-Weaker : Weaker same_rstrip same_normalized
unfolding same_rstrip same_normalized
same_rstrip-Weaker a b h =
    rw (same_text→eq (trim_end a) (trim_end b) h) (same_text_refl (normalize_unicode (trim b)))

same_trimmed-Weaker : Weaker same_trimmed same_normalized
unfolding same_trimmed same_normalized
same_trimmed-Weaker a b h =
    rw (same_text→eq (trim a) (trim b) h) (same_text_refl (normalize_unicode (trim b)))

matches_prefix-Weaker :
    (f g : String → String → Bool)
    → Weaker f g
    → (lines pattern : List String) → matches_prefix f lines pattern ≡ true
    → matches_prefix g lines pattern ≡ true
unfolding matches_prefix
matches_prefix-Weaker f g w [] [] h = refl
matches_prefix-Weaker f g w (l ∷ ls) [] h = refl
matches_prefix-Weaker f g w [] (p ∷ ps) h = absurd (cc)
matches_prefix-Weaker f g w (l ∷ ls) (p ∷ ps) h = elim (Bool-cases (f l p)) [
  | inl e ↦ rw (w l p e) (matches_prefix-Weaker f g w ls ps (rw e at h))
  | inr e ↦ absurd (ground (arith, e, h))
]

-- The pattern stands at line `i`, which is `start` or later.
abbrev pub Found : (String → String → Bool) → List String → List String → ℕ → ℕ → Type 0
Found compare lines pattern start i =
    start ≤ i
    × (i + length pattern ≤ length lines)
    × (matches_prefix compare (drop i lines) pattern ≡ true)

-- The pattern stands at no line from `start` on.
abbrev pub Absent : (String → String → Bool) → List String → List String → ℕ → Type 0
Absent compare lines pattern start =
    (i : ℕ)
    → start ≤ i
    → i + length pattern ≤ length lines
    → matches_prefix compare (drop i lines) pattern ≡ false

search_from-some :
    (compare : String → String → Bool) (lines pattern : List String) (count i k : ℕ)
    → search_from compare lines pattern count i ≡ some k
    → i ≤ k × k < i + count × (matches_prefix compare (drop k lines) pattern ≡ true)
unfolding search_from
search_from-some compare lines pattern zero i k h = absurd (cc)
search_from-some compare lines pattern (suc count) i k h =
    elim (Bool-cases (matches_prefix compare (drop i lines) pattern)) [
      | inl e ↦ ground (arith, e, h)
      | inr e ↦
          let r = search_from-some compare lines pattern count (suc i) k (rw e at h) in
          (omega (arith, r.0), omega (arith, r.1), r.2)
    ]

search_from-none :
    (compare : String → String → Bool) (lines pattern : List String) (count i : ℕ)
    → search_from compare lines pattern count i ≡ none
    → (k : ℕ) → i ≤ k
    → k < i + count
    → matches_prefix compare (drop k lines) pattern ≡ false
unfolding search_from
search_from-none compare lines pattern zero i h k a b = absurd (omega arith)
search_from-none compare lines pattern (suc count) i h k a b =
    elim (Bool-cases (matches_prefix compare (drop i lines) pattern)) [
      | inl e ↦ absurd (ground (arith, e, h))
      | inr e ↦ elim (Bool-cases (eqb i k)) [
        | inl q ↦ rw (sym (eqb→eq i k q)) e
        | inr q ↦
            search_from-none compare lines pattern count (suc i) (rw e at h) k (ground (arith, q))
              (omega arith)
      ]
    ]

-- The test of the match at the end of the lines.
abbrev at_end : List String → List String → ℕ → (String → String → Bool) → Bool → Bool
at_end lines pattern start compare eof =
    eof
    && leb (length pattern + start) (length lines)
    && matches_prefix compare (drop (length lines - length pattern) lines) pattern

at_end-Found :
    (lines pattern : List String) (start : ℕ) (compare : String → String → Bool) (eof : Bool)
    → at_end lines pattern start compare eof ≡ true
    → Found compare lines pattern start (length lines - length pattern)
at_end-Found lines pattern start compare eof e =
    (ground (arith, e), ground (arith, e), ground (arith, e))

some_inj : (i k : ℕ) → some i ≡ some k → i ≡ k
some_inj i k e = cc

try_match-Found :
    (lines pattern : List String) (start : ℕ) (compare : String → String → Bool) (eof : Bool)
    (i : ℕ)
    → try_match lines pattern start compare eof ≡ some i
    → Found compare lines pattern start i
unfolding try_match
try_match-Found lines pattern start compare eof i h =
    elim (Bool-cases (at_end lines pattern start compare eof)) [
      | inl e ↦
          rw (sym (some_inj (length lines - length pattern) i (rw e at h)))
            (at_end-Found lines pattern start compare eof e)
      | inr e ↦
          let r =
            search_from-some compare lines pattern (candidates lines pattern start) start i
              (rw e at h) in
          (r.0, omega (arith, r.0, r.1), r.2)
    ]

try_match-Absent :
    (lines pattern : List String) (start : ℕ) (compare : String → String → Bool) (eof : Bool)
    → try_match lines pattern start compare eof ≡ none
    → Absent compare lines pattern start
unfolding try_match
try_match-Absent lines pattern start compare eof h i a b =
    elim (Bool-cases (at_end lines pattern start compare eof)) [
      | inl e ↦ absurd (ground (arith, e, h))
      | inr e ↦
          search_from-none compare lines pattern (candidates lines pattern start) start (rw e at h)
            i a (omega (arith, a, b))
    ]

abbrev pub Sought : List String → List String → ℕ → Option ℕ → Type 0
Sought lines pattern start none = ¬ ((i : ℕ) × Found same_normalized lines pattern start i)
Sought lines pattern start (some i) = Found same_normalized lines pattern start i

Found-Weaker :
    (f : String → String → Bool)
    → Weaker f same_normalized
    → (lines pattern : List String) (start i : ℕ) → Found f lines pattern start i
    → Found same_normalized lines pattern start i
Found-Weaker f w lines pattern start i (a, b, c) =
    (a, b, matches_prefix-Weaker f same_normalized w (drop i lines) pattern c)

-- A pass before the others.
pass-Sought :
    (f : String → String → Bool)
    → Weaker f same_normalized
    → (lines pattern : List String) (start : ℕ) (eof : Bool) (later : Option ℕ)
    → Sought lines pattern start later
    → Sought lines pattern start (or_else (try_match lines pattern start f eof) later)
pass-Sought f w lines pattern start eof later h =
    elim (Option-cases (try_match lines pattern start f eof)) [
      | inl e ↦ rw e h
      | inr (i, e) ↦
          rw e
            (Found-Weaker f w lines pattern start i (try_match-Found lines pattern start f eof i e))
    ]

Absent-none :
    (lines pattern : List String) (start : ℕ)
    → Absent same_normalized lines pattern start
    → ¬ ((i : ℕ) × Found same_normalized lines pattern start i)
Absent-none lines pattern start h (i, (a, b, m)) = let n = h i a b in cc

last_pass-Sought :
    (lines pattern : List String) (start : ℕ) (eof : Bool)
    → Sought lines pattern start (try_match lines pattern start same_normalized eof)
last_pass-Sought lines pattern start eof =
    elim (Option-cases (try_match lines pattern start same_normalized eof)) [
      | inl e ↦ rw e (
          Absent-none lines pattern start
            (try_match-Absent lines pattern start same_normalized eof e))
      | inr (i, e) ↦ rw e (try_match-Found lines pattern start same_normalized eof i e)
    ]

-- A seek of at least one line, up to spaces at the lines' ends and typographic signs: the index it
-- gives is `start` or later, all lines sought stand there and within the haystack; where it gives
-- none, they stand nowhere from `start` on.
pub seek_sequence-Sought :
    (lines : List String) (p : String) (ps : List String) (start : ℕ) (eof : Bool)
    → Sought lines (p ∷ ps) start (seek_sequence lines (p ∷ ps) start eof)
unfolding seek_sequence four_passes
seek_sequence-Sought lines p ps start eof =
    pass-Sought same_exact same_exact-Weaker lines (p ∷ ps) start eof _ (
      pass-Sought same_rstrip same_rstrip-Weaker lines (p ∷ ps) start eof _ (
        pass-Sought same_trimmed same_trimmed-Weaker lines (p ∷ ps) start eof _
          (last_pass-Sought lines (p ∷ ps) start eof)))

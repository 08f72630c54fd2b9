-- ===== src/Patch/Splice.antt =====
-- applyReplacements of packages/agentlayer-core/src/utils/patch-parser.ts, which splices from the last
-- replacement to the first, against one pass over the lines from the first to the last.
use Prim.Native.String.{String}
use agentlayer.Prelude.{
  ℕ, zero, suc, ◌+◌, ◌-◌, ◌≤◌, List, [], ◌∷◌, ◌++◌, ◌≡◌, refl, sym, ap, ◌∙◌, arith, length, take,
  drop,
}
use agentlayer.Patch.Apply.{
  Replacement, splice, apply_replacements, insert_sorted, sort_replacements,
}

-- Replacements of `at` or later lines, each behind the one before and within `total` lines.
unfoldable pub InOrder : ℕ → ℕ → List Replacement → Type 0
InOrder at total [] = at ≤ total
InOrder at total (r ∷ rs) = at ≤ r.start × InOrder (r.start + r.old_length) total rs

-- One pass over the lines from `at` on: what stands before a replacement is kept, the replaced lines
-- give way to its segment.
unfoldable pub rewrite_from : ℕ → List String → List Replacement → List String
rewrite_from at lines [] = drop at lines
rewrite_from at lines (r ∷ rs) =
    take (r.start - at) (drop at lines)
    ++ (r.segment ++ rewrite_from (r.start + r.old_length) lines rs)

module _ {A : Type 0} where
  take-take : (m n : ℕ) (ls : List A) → m ≤ n → take m (take n ls) ≡ take m ls
  take-take zero n ls h = refl
  take-take (suc m) zero ls h = absurd (omega arith)
  take-take (suc m) (suc n) [] h = refl
  take-take (suc m) (suc n) (l ∷ ls) h = ap (λ (x : List A). l ∷ x) (take-take m n ls (omega arith))

  -- What is taken from, and dropped of, a list that begins with `n` elements of another.
  take-prefix :
      (m n : ℕ) (ls rest : List A) → m ≤ n → n ≤ length ls → take m (take n ls ++ rest) ≡ take m ls
  take-prefix zero n ls rest h k = refl
  take-prefix (suc m) zero ls rest h k = absurd (omega arith)
  take-prefix (suc m) (suc n) [] rest h k = absurd (omega arith)
  take-prefix (suc m) (suc n) (l ∷ ls) rest h k =
      ap (λ (x : List A). l ∷ x) (take-prefix m n ls rest (omega arith) (omega arith))

  drop-prefix :
      (m n : ℕ) (ls rest : List A)
      → m ≤ n
      → n ≤ length ls
      → drop m (take n ls ++ rest) ≡ take (n - m) (drop m ls) ++ rest
  drop-prefix zero n ls rest h k = rw (minus_zero n) refl
    where
      minus_zero : (n : ℕ) → n - 0 ≡ n
      minus_zero n = omega arith
  drop-prefix (suc m) zero ls rest h k = absurd (omega arith)
  drop-prefix (suc m) (suc n) [] rest h k = absurd (omega arith)
  drop-prefix (suc m) (suc n) (l ∷ ls) rest h k =
      rw (minus_suc n m) (drop-prefix m n ls rest (omega arith) (omega arith))
    where
      minus_suc : (n m : ℕ) → suc n - suc m ≡ n - m
      minus_suc n m = omega arith

InOrder-bound : (at total : ℕ) (rs : List Replacement) → InOrder at total rs → at ≤ total
unfolding InOrder
InOrder-bound at total [] h = h
InOrder-bound at total (r ∷ rs) (h, k) =
    omega (arith, h, InOrder-bound (r.start + r.old_length) total rs k)

-- Behind replacements in order the lines before them are the same, and the others are rewritten.
apply_replacements-from :
    (at : ℕ) (lines : List String) (rs : List Replacement)
    → InOrder at (length lines) rs
    → (take at (apply_replacements lines rs) ≡ take at lines)
      × (drop at (apply_replacements lines rs) ≡ rewrite_from at lines rs)
unfolding InOrder rewrite_from apply_replacements splice
apply_replacements-from at lines [] h = (refl, refl)
apply_replacements-from at lines (r ∷ rs) (h, k) =
    let end : ℕ = r.start + r.old_length in
    let later = apply_replacements-from end lines rs k in
    let bound = InOrder-bound end (length lines) rs k in
    let kept =
      sym (take-take r.start end (apply_replacements lines rs) (omega arith))
      ∙ ap (λ (ls : List String). take r.start ls) later.0
      ∙ take-take r.start end lines (omega arith) in
    rw (kept, later.1)
      (
        take-prefix at r.start lines _ h (omega (arith, bound)),
        drop-prefix at r.start lines _ h (omega (arith, bound)),
      )

pub apply_replacements-rewrite_from :
    (lines : List String) (rs : List Replacement)
    → InOrder 0 (length lines) rs
    → apply_replacements lines rs ≡ rewrite_from 0 lines rs
apply_replacements-rewrite_from lines rs h = (apply_replacements-from 0 lines rs h).1

-- Replacements in order are left as they are by the sort.
insert_sorted-first :
    (r : Replacement) (at total : ℕ) (rs : List Replacement)
    → InOrder at total rs
    → r.start ≤ at
    → insert_sorted r rs ≡ r ∷ rs
unfolding insert_sorted InOrder
insert_sorted-first r at total [] h k = refl
insert_sorted-first r at total (q ∷ qs) (h, _) k = ground (arith, h, k)

pub sort_replacements-InOrder :
    (at total : ℕ) (rs : List Replacement) → InOrder at total rs → sort_replacements rs ≡ rs
unfolding sort_replacements InOrder
sort_replacements-InOrder at total [] h = refl
sort_replacements-InOrder at total (r ∷ rs) (h, k) =
    rw (sort_replacements-InOrder (r.start + r.old_length) total rs k)
      (insert_sorted-first r (r.start + r.old_length) total rs k (omega arith))

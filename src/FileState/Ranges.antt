-- ===== src/FileState/Ranges.antt =====
-- packages/agentlayer-filesystem/src/hooks/file-state.ts: the ranges of lines that were read. The
-- source sorts by `Array.prototype.sort`, which is stable; insertion sort is its model.
use agentlayer.Prelude.{
  ℕ, ◌+◌, ◌≤◌, ◌<◌, ◌≡◌, ◌↔◌, inl, inr, refl, Bool, true, ◌&&◌, List, [], ◌∷◌, ◌++◌, arith, leb,
  max, if◌then◌else◌, any, All, ◌||◌, ◌∙◌, Bool-cases,
}

pub record LineRange : Type 0 where
  pub start_line : ℕ
  pub end_line : ℕ

unfoldable pub insert_range : LineRange → List LineRange → List LineRange
insert_range r [] = r ∷ []
insert_range r (s ∷ rs) =
    let later = insert_range r rs in if leb r.start_line s.start_line then r ∷ s ∷ rs else s ∷ later

unfoldable pub sort_ranges : List LineRange → List LineRange
unfolding insert_range
sort_ranges [] = []
sort_ranges (r ∷ rs) = insert_range r (sort_ranges rs)

-- The loop over the sorted ranges: `last` is the last range of `merged`, written through.
unfoldable pub merge_from : LineRange → List LineRange → List LineRange
merge_from last [] = last ∷ []
merge_from last (r ∷ rs) =
    let joined = merge_from (record last { end_line = max last.end_line r.end_line }) rs in
    let apart = merge_from r rs in
    if leb r.start_line (last.end_line + 1) then joined else last ∷ apart

unfoldable pub merge_sorted : List LineRange → List LineRange
unfolding merge_from
merge_sorted [] = []
merge_sorted (r ∷ rs) = merge_from r rs

unfoldable pub merge_line_ranges : List LineRange → List LineRange
unfolding sort_ranges merge_sorted
merge_line_ranges [] = []
merge_line_ranges (r ∷ []) = r ∷ []
merge_line_ranges (r ∷ s ∷ rs) = merge_sorted (sort_ranges (r ∷ s ∷ rs))

unfoldable pub add_covered_range : List LineRange → LineRange → List LineRange
unfolding merge_line_ranges
add_covered_range ranges next = merge_line_ranges (ranges ++ next ∷ [])

unfoldable pub is_range_covered : List LineRange → LineRange → Bool
is_range_covered ranges requested =
    any
      (λ (r : LineRange).
        leb r.start_line requested.start_line && leb requested.end_line r.end_line)
      ranges

-- A line lies in a range, or in one of the ranges.
abbrev pub Within : ℕ → LineRange → Type 0
Within n r = (r.start_line ≤ n) × (n ≤ r.end_line)

abbrev pub in_range : ℕ → LineRange → Bool
in_range n r = leb r.start_line n && leb n r.end_line

abbrev pub covers : List LineRange → ℕ → Bool
covers ranges n = any (in_range n) ranges

covers-insert :
    (n : ℕ) (r : LineRange) (rs : List LineRange) → covers (insert_range r rs) n ≡ covers (r ∷ rs) n
unfolding insert_range
covers-insert n r [] = refl
covers-insert n r (s ∷ rs) = ground (arith, covers-insert n r rs)

covers-sort : (n : ℕ) (rs : List LineRange) → covers (sort_ranges rs) n ≡ covers rs n
unfolding sort_ranges
covers-sort n [] = refl
covers-sort n (r ∷ rs) = ground (arith, covers-insert n r (sort_ranges rs), covers-sort n rs)

-- Sorted by the first line; and, after merging, at least one line lies between any two ranges.
abbrev StartsFrom : ℕ → List LineRange → Type 0
StartsFrom n [] = Unit
StartsFrom n (r ∷ rs) = (n ≤ r.start_line) × StartsFrom r.start_line rs

abbrev pub IsSeparated : List LineRange → Type 0
IsSeparated [] = Unit
IsSeparated (r ∷ rs) = All (λ s. r.end_line + 1 < s.start_line) rs × IsSeparated rs

StartsFrom-weaken : (m n : ℕ) (rs : List LineRange) → m ≤ n → StartsFrom n rs → StartsFrom m rs
StartsFrom-weaken m n [] p h = tt
StartsFrom-weaken m n (r ∷ rs) p (q, h) = (omega arith, h)

insert-StartsFrom :
    (n : ℕ) (r : LineRange) (rs : List LineRange)
    → n ≤ r.start_line
    → StartsFrom n rs
    → StartsFrom n (insert_range r rs)
unfolding insert_range
insert-StartsFrom n r [] p h = (p, tt)
insert-StartsFrom n r (s ∷ rs) p (q, h) = elim (Bool-cases (leb r.start_line s.start_line)) [
  | inl e ↦ rw e (p, (ground arith, h))
  | inr e ↦ rw e (q, insert-StartsFrom s.start_line r rs (ground arith) h)
]

sort-StartsFrom : (rs : List LineRange) → StartsFrom 0 (sort_ranges rs)
unfolding sort_ranges
sort-StartsFrom [] = tt
sort-StartsFrom (r ∷ rs) = insert-StartsFrom 0 r (sort_ranges rs) (omega arith) (sort-StartsFrom rs)

abbrev join : LineRange → LineRange → LineRange
join last r = record last { end_line = max last.end_line r.end_line }

covers-merge_from :
    (n : ℕ) (last : LineRange) (rs : List LineRange)
    → StartsFrom last.start_line rs
    → covers (merge_from last rs) n ≡ covers (last ∷ rs) n
unfolding merge_from
covers-merge_from n last [] h = refl
covers-merge_from n last (r ∷ rs) (q, h) = ground (
  arith,
  covers-merge_from n r rs h,
  covers-merge_from n (join last r) rs (StartsFrom-weaken last.start_line r.start_line rs q h),
)

merge_from-starts :
    (k : ℕ) (last : LineRange) (rs : List LineRange)
    → k < last.start_line
    → StartsFrom last.start_line rs
    → All (λ s. k < s.start_line) (merge_from last rs)
unfolding merge_from
merge_from-starts k last [] p h = (p, tt)
merge_from-starts k last (r ∷ rs) p (q, h) = ground (
  arith,
  merge_from-starts k r rs (omega arith) h,
  merge_from-starts k (join last r) rs p (StartsFrom-weaken last.start_line r.start_line rs q h),
)

merge_from-IsSeparated :
    (last : LineRange) (rs : List LineRange)
    → StartsFrom last.start_line rs
    → IsSeparated (merge_from last rs)
unfolding merge_from
merge_from-IsSeparated last [] h = (tt, tt)
merge_from-IsSeparated last (r ∷ rs) (q, h) =
    elim (Bool-cases (leb r.start_line (last.end_line + 1))) [
      | inl e ↦ rw e (
          merge_from-IsSeparated (join last r) rs
            (StartsFrom-weaken last.start_line r.start_line rs q h))
      | inr e ↦ rw e (
        merge_from-starts (last.end_line + 1) r rs (ground arith) h,
        merge_from-IsSeparated r rs h,
      )
    ]

covers-append :
    (n : ℕ) (rs ts : List LineRange) → covers (rs ++ ts) n ≡ (covers rs n || covers ts n)
covers-append n [] ts = refl
covers-append n (r ∷ rs) ts = ground (arith, covers-append n rs ts)

merge_sorted_lem :
    (n : ℕ) (rs : List LineRange)
    → StartsFrom 0 rs
    → (covers (merge_sorted rs) n ≡ covers rs n) × IsSeparated (merge_sorted rs)
unfolding merge_sorted
merge_sorted_lem n [] h = (refl, tt)
merge_sorted_lem n (r ∷ rs) (p, h) = (covers-merge_from n r rs h, merge_from-IsSeparated r rs h)

merge_line_ranges_lem :
    (n : ℕ) (rs : List LineRange)
    → (covers (merge_line_ranges rs) n ≡ covers rs n) × IsSeparated (merge_line_ranges rs)
unfolding merge_line_ranges
merge_line_ranges_lem n [] = (refl, tt)
merge_line_ranges_lem n (r ∷ []) = (refl, (tt, tt))
merge_line_ranges_lem n (r ∷ s ∷ rs) =
    let all = r ∷ s ∷ rs in
    let (same, apart) = merge_sorted_lem n (sort_ranges all) (sort-StartsFrom all) in
    (same ∙ covers-sort n all, apart)

-- Adding a range covers the lines that were covered and those of the range, and no others; the
-- ranges of the result have at least one line between any two of them.
pub add_covered_range_lem :
    (n : ℕ) (ranges : List LineRange) (next : LineRange)
    → (covers (add_covered_range ranges next) n ≡ (covers ranges n || in_range n next))
      × IsSeparated (add_covered_range ranges next)
unfolding add_covered_range
add_covered_range_lem n ranges next =
    let (same, apart) = merge_line_ranges_lem n (ranges ++ next ∷ []) in
    (ground (arith, same, covers-append n ranges (next ∷ [])), apart)

covers-above :
    (k n : ℕ) (rs : List LineRange) → All (λ s. k < s.start_line) rs → covers rs n ≡ true → k < n
covers-above k n [] h e = absurd (cc)
covers-above k n (r ∷ rs) (p, h) e = ground (arith, covers-above k n rs h)

is_range_covered_sound :
    (ranges : List LineRange) (q : LineRange)
    → is_range_covered ranges q ≡ true
    → (n : ℕ) → Within n q
    → covers ranges n ≡ true
unfolding is_range_covered
is_range_covered_sound [] q h n w = absurd (cc)
is_range_covered_sound (r ∷ rs) q h n w =
    ground (arith, λ (e : is_range_covered rs q ≡ true). is_range_covered_sound rs q e n w)

is_range_covered_complete :
    (ranges : List LineRange) (q : LineRange)
    → IsSeparated ranges
    → q.start_line ≤ q.end_line
    → ((n : ℕ) → Within n q → covers ranges n ≡ true)
    → is_range_covered ranges q ≡ true
unfolding is_range_covered
is_range_covered_complete [] q sep v h = absurd (ground (arith, h q.start_line (omega arith, v)))
is_range_covered_complete (r ∷ rs) q (apart, sep) v h =
    elim (Bool-cases (in_range q.start_line r)) [
      | inl e ↦ elim (Bool-cases (leb q.end_line r.end_line)) [
        | inl f ↦ ground arith
        | inr f ↦
            let next : covers (r ∷ rs) (r.end_line + 1) ≡ true =
              h (r.end_line + 1) (ground arith, ground arith) in
            absurd (ground (arith, covers-above (r.end_line + 1) (r.end_line + 1) rs apart))
      ]
      | inr e ↦
          let first : covers rs q.start_line ≡ true =
            ground (arith, h q.start_line (omega arith, v)) in
          let above : r.end_line + 1 < q.start_line =
            covers-above (r.end_line + 1) q.start_line rs apart first in
          ground (arith, is_range_covered_complete rs q sep v (λ n w. ground (arith, h n w)))
    ]

-- Over separated ranges, a range with at least one line counts as covered exactly when each of its
-- lines lies in one of the ranges.
pub is_range_covered_iff :
    (ranges : List LineRange) (q : LineRange)
    → IsSeparated ranges
    → q.start_line ≤ q.end_line
    → (is_range_covered ranges q ≡ true) ↔ ((n : ℕ) → Within n q → covers ranges n ≡ true)
is_range_covered_iff ranges q sep v =
    (is_range_covered_sound ranges q, is_range_covered_complete ranges q sep v)

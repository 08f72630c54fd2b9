-- ===== src/Patch/Placed.antt =====
-- computeReplacements of packages/agentlayer-core/src/utils/patch-parser.ts: where the chunks' lines
-- are found, and what applyReplacements makes of it.
use Prim.Native.String.{String}
use agentlayer.Prelude.{
  ℕ, ◌+◌, ◌≤◌, ◌<◌, Bool, true, false, Option, none, some, List, [], ◌∷◌, ◌≡◌, refl, sym, ap, ◌∙◌,
  ◌⊎◌, inl, inr, arith, length, All, bind, if◌then◌else◌, Bool-cases, Option-cases,
}
use agentlayer.Patch.{PatchChunk, unless_empty}
use agentlayer.Patch.Seek.{seek_sequence, same_normalized}
use agentlayer.Patch.Located.{Found, seek_sequence-Sought}
use agentlayer.Patch.Apply.{
  Replacement, PatchError, ends_empty, drop_last, after_context, locate, place_chunk, place_chunks,
  compute_replacements, replace_at, apply_replacements, sort_replacements,
}
use agentlayer.Patch.Splice.{
  InOrder, rewrite_from, apply_replacements-rewrite_from, sort_replacements-InOrder,
}

seek_sequence-Found :
    (lines pattern : List String) (start : ℕ) (eof : Bool) (i : ℕ)
    → seek_sequence lines pattern start eof ≡ some i
    → Found same_normalized lines pattern start i
seek_sequence-Found lines [] start eof i h = absurd (unfold seek_sequence in cc)
seek_sequence-Found lines (p ∷ ps) start eof i h =
    rw h at (seek_sequence-Sought lines p ps start eof)

-- The lines that a replacement stands for and what it puts there: the chunk's old and new lines, or
-- both without an empty line at their end.
abbrev pub shorter : List String → List String
shorter ls = if ends_empty ls then drop_last ls else ls

abbrev pub OfChunk : PatchChunk → List String → List String → Type 0
OfChunk c old new =
    ((old ≡ c.old_lines) × (new ≡ c.new_lines))
    ⊎ ((ends_empty c.old_lines ≡ true)
        × (old ≡ drop_last c.old_lines)
        × (new ≡ shorter c.new_lines))

abbrev pub IsPlaced : List String → ℕ → PatchChunk → Replacement → Type 0
IsPlaced lines at c r =
    (old : List String) × OfChunk c old r.segment
    × (r.old_length ≡ length old)
    × Found same_normalized lines old at r.start

-- Each chunk is placed behind the one before.
unfoldable pub ArePlaced : List String → ℕ → List PatchChunk → List Replacement → Type 0
ArePlaced lines at [] [] = Unit
ArePlaced lines at (c ∷ cs) (r ∷ rs) =
    IsPlaced lines at c r × ArePlaced lines (r.start + r.old_length) cs rs
ArePlaced lines at [] (r ∷ rs) = ⊥
ArePlaced lines at (c ∷ cs) [] = ⊥

some_inj {ℓ} : {A : Type ℓ} (a b : A) → some a ≡ some b → a ≡ b
some_inj a b e = cc

inr_inj : {B : Type 0} (a b : B) → ◌≡◌ {A = PatchError ⊎ B} (inr a) (inr b) → a ≡ b
inr_inj a b e = cc

-- A replacement of lines that a seek has found.
found-IsPlaced :
    (lines : List String) (at : ℕ) (c : PatchChunk) (old new : List String) (i : ℕ)
    (r : Replacement)
    → OfChunk c old new
    → seek_sequence lines old at c.end_of_file ≡ some i
    → some (replace_at old new i) ≡ some r
    → IsPlaced lines at c r
found-IsPlaced lines at c old new i r of e h =
    rw (sym (some_inj (replace_at old new i) r h))
      (old, of, refl, seek_sequence-Found lines old at c.end_of_file i e)

locate-IsPlaced :
    (lines : List String) (at : ℕ) (c : PatchChunk) (r : Replacement)
    → locate lines at c ≡ some r
    → IsPlaced lines at c r
unfolding locate
locate-IsPlaced lines at c r h =
    elim (Option-cases (seek_sequence lines c.old_lines at c.end_of_file)) [
      | inr (i, e) ↦
          found-IsPlaced lines at c c.old_lines c.new_lines i r (inl (refl, refl)) e
            (rw (e, locate) at h)
      | inl e ↦ elim (Bool-cases (ends_empty c.old_lines)) [
        | inl d ↦
            elim (Option-cases (seek_sequence lines (drop_last c.old_lines) at c.end_of_file)) [
              | inr (i, f) ↦
                  found-IsPlaced lines at c (drop_last c.old_lines) (shorter c.new_lines) i r
                    (inr (d, refl, refl)) f (rw (e, d, f, locate) at h)
              | inl f ↦ absurd (ground (arith, rw (e, d, f, locate) at h))
            ]
        | inr d ↦ absurd (ground (arith, rw (e, d, locate) at h))
      ]
    ]

after_context-later :
    (lines : List String) (index : ℕ) (o : Option String) (at : ℕ)
    → after_context lines index o ≡ inr at
    → index ≤ at
unfolding after_context
after_context-later lines index none at h = rw (inr_inj index at h) (omega arith)
after_context-later lines index (some t) at h =
    elim (Option-cases (seek_sequence lines (t ∷ []) index false)) [
      | inl e ↦ absurd (ground (arith, e, h))
      | inr (i, e) ↦ ground (arith, e, h, (seek_sequence-Found lines (t ∷ []) index false i e).0)
    ]

list_cases {ℓ} : {A : Type ℓ} (ls : List A) → (ls ≡ []) ⊎ ((l : A) × (r : List A) × (ls ≡ l ∷ r))
list_cases [] = inl refl
list_cases (l ∷ r) = inr (l, r, refl)

Sum-cases {ℓ κ} :
    {A : Type ℓ} {B : Type κ} (s : A ⊎ B) → ((a : A) × (s ≡ inl a)) ⊎ ((b : B) × (s ≡ inr b))
Sum-cases (inl a) = inl (a, refl)
Sum-cases (inr b) = inr (b, refl)

IsPlaced-earlier :
    (lines : List String) (index at : ℕ) (c : PatchChunk) (r : Replacement)
    → index ≤ at
    → IsPlaced lines at c r
    → IsPlaced lines index c r
IsPlaced-earlier lines index at c r h (old, of, l, (a, b, m)) = (old, of, l, (omega arith, b, m))

place_chunk-IsPlaced :
    (lines : List String) (index : ℕ) (c : PatchChunk) (r : Replacement) (next : ℕ)
    → 0 < length c.old_lines
    → place_chunk lines index c ≡ inr (r, next)
    → IsPlaced lines index c r × (next ≡ r.start + r.old_length)
unfolding place_chunk
place_chunk-IsPlaced lines index c r next full h =
    elim (Sum-cases (after_context lines index (bind c.change_context unless_empty))) [
      | inl (e, q) ↦ absurd (ground (arith, rw (q, place_chunk) at h))
      | inr (at, q) ↦ elim (list_cases c.old_lines) [
        | inl n ↦ absurd (ground (arith, n, full))
        | inr (l, ls, n) ↦ elim (Option-cases (locate lines at c)) [
          | inl f ↦ absurd (ground (arith, rw (q, n, f, place_chunk) at h))
          | inr (s, f) ↦
              let p =
                inr_inj (s, s.start + s.old_length) (r, next) (rw (q, n, f, place_chunk) at h) in
              let same : s ≡ r = ap (λ (x : Replacement × ℕ). x.0) p in
              (
                rw (sym same) (
                    IsPlaced-earlier lines index at c s
                      (after_context-later lines index (bind c.change_context unless_empty) at q)
                      (locate-IsPlaced lines at c s f)),
                sym (ap (λ (x : Replacement × ℕ). x.1) p)
                    ∙ ap (λ (x : Replacement). x.start + x.old_length) same,
              )
        ]
      ]
    ]

place_chunks-ArePlaced :
    (lines : List String) (index : ℕ) (cs : List PatchChunk) (rs : List Replacement)
    → All (λ c. 0 < length c.old_lines) cs
    → place_chunks lines index cs ≡ inr rs
    → ArePlaced lines index cs rs
unfolding place_chunks ArePlaced
place_chunks-ArePlaced lines index [] rs _ h = rw (sym (inr_inj [] rs h)) tt
place_chunks-ArePlaced lines index (c ∷ cs) rs (f, fs) h =
    elim (Sum-cases (place_chunk lines index c)) [
      | inl (e, q) ↦ absurd (ground (arith, rw (q, place_chunks) at h))
      | inr ((r, next), q) ↦ elim (Sum-cases (place_chunks lines next cs)) [
        | inl (e, p) ↦ absurd (ground (arith, rw (q, p, place_chunks) at h))
        | inr (qs, p) ↦
            let first = place_chunk-IsPlaced lines index c r next f q in
            rw (sym (inr_inj (r ∷ qs) rs (rw (q, p, place_chunks) at h)))
              (first.0, rw first.1 at (place_chunks-ArePlaced lines next cs qs fs p))
      ]
    ]

ArePlaced-InOrder :
    (lines : List String) (index : ℕ) (cs : List PatchChunk) (rs : List Replacement)
    → index ≤ length lines
    → ArePlaced lines index cs rs
    → InOrder index (length lines) rs
unfolding ArePlaced InOrder
ArePlaced-InOrder lines index [] [] h _ = h
ArePlaced-InOrder lines index (c ∷ cs) (r ∷ rs) h ((old, of, l, (a, b, m)), k) =
    (a, ArePlaced-InOrder lines (r.start + r.old_length) cs rs (omega arith) k)
ArePlaced-InOrder lines index [] (r ∷ rs) h k = absurd k
ArePlaced-InOrder lines index (c ∷ cs) [] h k = absurd k

-- For chunks that all have old lines: where compute_replacements succeeds, each chunk's old lines
-- stand, up to spaces at the lines' ends and typographic signs, at its replacement, which is behind
-- those of the earlier chunks and within the file; and splicing from the last replacement to the first
-- is one pass that puts each segment in place of these lines and keeps all others.
pub compute_replacements-rewrite_from :
    (lines : List String) (cs : List PatchChunk) (rs : List Replacement)
    → All (λ c. 0 < length c.old_lines) cs
    → compute_replacements lines cs ≡ inr rs
    → ArePlaced lines 0 cs rs × (apply_replacements lines rs ≡ rewrite_from 0 lines rs)
unfolding compute_replacements
compute_replacements-rewrite_from lines cs rs full h = elim (Sum-cases (place_chunks lines 0 cs)) [
  | inl (e, q) ↦ absurd (ground (arith, rw (q, compute_replacements) at h))
  | inr (qs, q) ↦
      let placed = place_chunks-ArePlaced lines 0 cs qs full q in
      let order = ArePlaced-InOrder lines 0 cs qs (omega arith) placed in
      let same =
        sym (sort_replacements-InOrder 0 (length lines) qs order)
        ∙ inr_inj (sort_replacements qs) rs (rw (q, compute_replacements) at h) in
      rw (sym same) (placed, apply_replacements-rewrite_from lines qs order)
]

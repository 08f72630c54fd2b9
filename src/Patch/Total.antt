-- ===== src/Patch/Total.antt =====
-- The loops of packages/agentlayer-core/src/utils/patch-parser.ts end: each round leaves fewer lines.
use Prim.Native.String.{String}
use agentlayer.Prelude.{
  ℕ, zero, suc, ◌≤◌, not, ◌||◌, Option, none, some, List, [], ◌∷◌, ◌≡◌, ◌≢◌, refl, length, arith,
  Bool-cases, Option-cases, inl, inr,
}
use agentlayer.Prelude.Texts.{strip_prefix, split_lines}
use agentlayer.Patch.{
  PatchChunk, PatchOperation, out_of_fuel, is_header, is_end_of_file, add_lines, skip_lines,
  ChunkLines, chunk_line, chunk_lines, chunk_loop, move_line, parse_next, parse_body, body_of,
  parse_patch, chunk_of, add_operation, delete_operation, update_operation, push_some,
}
use agentlayer.Patch.Heredoc.{strip_heredoc}

add_lines-shorter : (ls : List String) → length ((add_lines ls).1) ≤ length ls
unfolding add_lines
add_lines-shorter [] = omega arith
add_lines-shorter (l ∷ ls) = ground (arith, add_lines-shorter ls)

skip_lines-shorter : (ls : List String) → length (skip_lines ls) ≤ length ls
unfolding skip_lines
skip_lines-shorter [] = omega arith
skip_lines-shorter (l ∷ ls) = ground (arith, skip_lines-shorter ls)

move_line-shorter : (ls : List String) → length ((move_line ls).1) ≤ length ls
unfolding move_line
move_line-shorter [] = omega arith
move_line-shorter (l ∷ ls) = ground arith

chunk_line-rest : (l : String) (r : ChunkLines) → (chunk_line l r).rest ≡ r.rest
unfolding chunk_line
chunk_line-rest String.[] r = refl
chunk_line-rest (String.◌∷◌ c t) r = ground arith

chunk_lines-shorter : (ls : List String) → length ((chunk_lines ls).rest) ≤ length ls
unfolding chunk_lines
chunk_lines-shorter [] = omega arith
chunk_lines-shorter (l ∷ ls) =
    ground (arith, chunk_lines-shorter ls, chunk_line-rest l (chunk_lines ls))

-- Enough fuel gives a result, and it leaves no more lines than there were.
pub chunk_loop-Total :
    (n : ℕ) (ls : List String)
    → length ls ≤ n
    → (r : List PatchChunk × List String) × (chunk_loop n ls ≡ some r) × (length (r.1) ≤ length ls)
unfolding chunk_loop
chunk_loop-Total zero [] h = (([], []), refl, omega arith)
chunk_loop-Total zero (l ∷ ls) h = absurd (omega arith)
chunk_loop-Total (suc n) [] h = (([], []), refl, omega arith)
chunk_loop-Total (suc n) (l ∷ ls) h = elim (Option-cases (strip_prefix "@@" l)) [
  | inr (c, e) ↦
      let t = chunk_loop-Total n (chunk_lines ls).rest (omega (arith, chunk_lines-shorter ls)) in
      (
        (chunk_of c (chunk_lines ls) ∷ t.0.0, t.0.1),
        rw (e, t.1, chunk_loop) refl,
        omega (arith, chunk_lines-shorter ls, t.2),
      )
  | inl e ↦ elim (Bool-cases (is_end_of_file l || not (is_header l))) [
    | inl d ↦
        let t = chunk_loop-Total n ls (omega arith) in
        (t.0, rw (e, d, chunk_loop) t.1, omega (arith, t.2))
    | inr d ↦ (([], l ∷ ls), rw (e, d, chunk_loop) refl, omega arith)
  ]
]

pub parse_next-Total :
    (l : String) (ls : List String)
    → (r : Option PatchOperation × List String) × (parse_next l ls ≡ some r)
      × (length (r.1) ≤ length ls)
unfolding parse_next
parse_next-Total l ls = elim (Option-cases (strip_prefix "*** Add File: " l)) [
  | inr (p, e) ↦ (
    (some (add_operation p ((add_lines ls).0)), (add_lines ls).1),
    rw (e, parse_next) refl,
    add_lines-shorter ls,
  )
  | inl a ↦ elim (Option-cases (strip_prefix "*** Delete File: " l)) [
    | inr (p, e) ↦ (
      (some (delete_operation p), skip_lines ls),
      rw (a, e, parse_next) refl,
      skip_lines-shorter ls,
    )
    | inl d ↦ elim (Option-cases (strip_prefix "*** Update File: " l)) [
      | inl u ↦ ((none, ls), rw (a, d, u, parse_next) refl, omega arith)
      | inr (p, e) ↦
          let t = chunk_loop-Total (length ((move_line ls).1)) (move_line ls).1 (omega arith) in
          (
            (some (update_operation p ((move_line ls).0) t.0.0), t.0.1),
            rw (a, d, e, t.1, parse_next) refl,
            omega (arith, t.2, move_line-shorter ls),
          )
    ]
  ]
]

pub parse_body-Total :
    (n : ℕ) (ls : List String)
    → length ls ≤ n
    → (ops : List PatchOperation) × (parse_body n ls ≡ some ops)
unfolding parse_body
parse_body-Total zero [] h = ([], refl)
parse_body-Total zero (l ∷ ls) h = absurd (omega arith)
parse_body-Total (suc n) [] h = ([], refl)
parse_body-Total (suc n) (l ∷ ls) h =
    let r = parse_next-Total l ls in
    let t = parse_body-Total n r.0.1 (omega (arith, r.2)) in
    (push_some r.0.0 t.0, rw (r.1, t.1) refl)

-- The parser ends on every text: the fuel it is given, the number of lines of the body, is enough.
pub parse_patch-terminates : (raw : String) → parse_patch raw ≢ out_of_fuel
unfolding parse_patch
parse_patch-terminates raw = elim (Option-cases (body_of (split_lines (strip_heredoc raw)))) [
  | inl e ↦ rw (e, parse_patch) (λ h. cc)
  | inr (body, e) ↦
      let t = parse_body-Total (length body) body (omega arith) in
      rw (e, t.1, parse_patch) (λ h. cc)
]

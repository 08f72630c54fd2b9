-- ===== src/Patch/Validated.antt =====
-- validateHunks of packages/agentlayer-core/src/utils/patch-parser.ts.
use Prim.Native.String.{String}
use agentlayer.Prelude.{
  Option, none, some, List, [], ◌∷◌, ◌≡◌, refl, ◌↔◌, ◌⊎◌, inl, inr, arith, All, Option-cases,
}
use agentlayer.Patch.{PatchOperation, PatchOperationType, add, update, delete, move}
use agentlayer.Patch.Apply.{
  PatchError, error_of, update_error, delete_error, typed_error, hunk_error, validate_hunks,
  apply_update_chunks,
}

abbrev pub Updates : Option String → PatchOperation → Type 0
Updates file op =
    (content : String) × (result : String) × (file ≡ some content)
    × (apply_update_chunks content op.chunks ≡ inr result)

-- The operation can be carried out on the files that `read_file` gives.
abbrev pub AppliesAs : (String → Option String) → PatchOperation → PatchOperationType → Type 0
AppliesAs read_file op add = Unit
AppliesAs read_file op update = Updates (read_file op.file_path) op
AppliesAs read_file op delete = (content : String) × (read_file op.file_path ≡ some content)
AppliesAs read_file op move = Updates (read_file op.file_path) op

abbrev pub Applies : (String → Option String) → PatchOperation → Type 0
Applies read_file op = AppliesAs read_file op op.type

result-Updates :
    (content : String) (op : PatchOperation) (r : PatchError ⊎ String)
    → apply_update_chunks content op.chunks ≡ r
    → error_of r ≡ none
    → Updates (some content) op
result-Updates content op (inl e) q h = absurd (cc)
result-Updates content op (inr t) q h = (content, t, refl, q)

some_inj : (a b : String) → some a ≡ some b → a ≡ b
some_inj a b e = cc

update_error-Updates_iff :
    (file : Option String) (op : PatchOperation) → (update_error file op ≡ none) ↔ Updates file op
update_error-Updates_iff none op = ((λ h. absurd (cc)), (λ (c, t, e, q). absurd (cc)))
update_error-Updates_iff (some content) op = (
  result-Updates content op (apply_update_chunks content op.chunks) refl,
  (λ (c, t, e, q). rw (some_inj content c e, q) refl),
)

delete_error_iff :
    (file : Option String) (op : PatchOperation)
    → (delete_error file op ≡ none) ↔ ((content : String) × (file ≡ some content))
delete_error_iff none op = ((λ h. absurd (cc)), (λ (c, e). absurd (cc)))
delete_error_iff (some content) op = ((λ h. (content, refl)), (λ h. refl))

typed_error-AppliesAs_iff :
    (read_file : String → Option String) (op : PatchOperation) (t : PatchOperationType)
    → (typed_error read_file op t ≡ none) ↔ AppliesAs read_file op t
unfolding typed_error
typed_error-AppliesAs_iff read_file op add = ((λ _. tt), (λ _. refl))
typed_error-AppliesAs_iff read_file op update = update_error-Updates_iff (read_file op.file_path) op
typed_error-AppliesAs_iff read_file op delete = delete_error_iff (read_file op.file_path) op
typed_error-AppliesAs_iff read_file op move = update_error-Updates_iff (read_file op.file_path) op

-- The hunks are valid exactly when each operation can be carried out: an update's or a move's file can
-- be read and its chunks apply to it, a deleted file can be read; nothing is asked of an addition.
pub validate_hunks-Applies_iff :
    (read_file : String → Option String) (ops : List PatchOperation)
    → (validate_hunks read_file ops ≡ none) ↔ All (Applies read_file) ops
unfolding validate_hunks hunk_error
validate_hunks-Applies_iff read_file [] = ((λ _. tt), (λ _. refl))
validate_hunks-Applies_iff read_file (op ∷ ops) =
    let one = typed_error-AppliesAs_iff read_file op op.type in
    let later = validate_hunks-Applies_iff read_file ops in
    elim (Option-cases (typed_error read_file op op.type)) [
      | inl e ↦ rw (e, validate_hunks) ((λ h. (one.0 e, later.0 h)), (λ (_, hs). later.1 hs))
      | inr (x, e) ↦
          rw (e, validate_hunks)
            ((λ h. absurd (cc)), (λ (h, hs). absurd (ground (arith, e, one.1 h))))
    ]

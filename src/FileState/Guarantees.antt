-- ===== src/FileState/Guarantees.antt =====
-- packages/agentlayer-filesystem/src/hooks/file-state.ts: which writes the hook before a tool lets
-- through, and what a tracked read changes about it.
use agentlayer.Prelude.{
  ◌≡◌, ◌≢◌, ◌↔◌, ◌⊎◌, inl, inr, refl, String, true, Option, some, List, [], ◌∷◌, arith, eq_iff, All,
  Bool-cases, Option-cases, bind,
}
use agentlayer.Prelude.Records.{lookup, lookup-insert}
use agentlayer.Prelude.Json.{Json}
use agentlayer.FileState.{
  FileVerificationStateMap, FileState, Env, Disk, TrackedPath, tracked, missing, truthy,
  expand_path, Node, regular, special, read_regular_file, compute_file_hash, extract_file_path,
  may_write, check_targets, next,
}
use agentlayer.Messages.{sanitize_text}
use agentlayer.FileState.Actions.{
  Snapshot, read_snapshot, track_read, apply_file_verification_state_action,
  apply_file_verification_state_actions,
}

-- `lastVerifiedHash` of a path
abbrev pub verified_hash : FileVerificationStateMap → String → Option String
verified_hash m path = bind (lookup path m) (λ e. e.last_verified_hash)

-- A target is new on disk, or its present text has the recorded hash, which is not empty.
abbrev pub IsVerified : Env → Disk → FileVerificationStateMap → TrackedPath → Type 0
IsVerified env disk m t =
    (disk t.resolved_path ≡ missing)
    ⊎ ((text : String) × ((read_regular_file disk t.resolved_path ≡ some text)
          × ((verified_hash m t.resolved_path ≡ some (env.hash_content text))
              × (env.hash_content text ≢ ""))))

truthy-some : (s : String) → s ≢ "" → truthy (some s) ≡ some s
unfolding truthy
truthy-some s h = ground (arith, eq_iff s "")

abbrev IsRegular : Node → Type 0
IsRegular node = (text : String) × (node ≡ regular text)

Node-cases : (node : Node) → (node ≡ missing) ⊎ (IsRegular node ⊎ (node ≡ special))
Node-cases missing = inl refl
Node-cases (regular text) = inr (inl (text, refl))
Node-cases special = inr (inr refl)

may_write_sound :
    (env : Env) (disk : Disk) (m : FileVerificationStateMap) (t : TrackedPath)
    → may_write env disk m t ≡ true
    → IsVerified env disk m t
unfolding may_write compute_file_hash truthy read_regular_file
may_write_sound env disk m t h = elim (Node-cases (disk t.resolved_path)) [
  | inl e ↦ inl e
  | inr (inl (text, e)) ↦ elim (Option-cases (verified_hash m t.resolved_path)) [
    | inl f ↦ absurd (ground (arith, h, e, f))
    | inr (v, f) ↦
        ground (arith, h, e, f, eq_iff v "", eq_iff (env.hash_content (sanitize_text text)) v)
  ]
  | inr (inr e) ↦ absurd (ground (arith, h, e))
]

may_write_complete :
    (env : Env) (disk : Disk) (m : FileVerificationStateMap) (t : TrackedPath)
    → IsVerified env disk m t
    → may_write env disk m t ≡ true
unfolding may_write compute_file_hash truthy read_regular_file
may_write_complete env disk m t (inl e) = ground (arith, e)
may_write_complete env disk m t (inr (text, (r, (v, h)))) = ground (
  arith,
  r,
  v,
  h,
  eq_iff (env.hash_content text) "",
  eq_iff (env.hash_content text) (env.hash_content text),
)

pub check_targets_iff :
    (env : Env) (disk : Disk) (m : FileVerificationStateMap) (ts : List TrackedPath)
    → (check_targets env disk m ts ≡ next) ↔ All (IsVerified env disk m) ts
unfolding check_targets
check_targets_iff env disk m [] = ((λ _. tt), (λ _. refl))
check_targets_iff env disk m (t ∷ ts) = elim (Bool-cases (may_write env disk m t)) [
  | inl e ↦ rw e (
    (λ h. (may_write_sound env disk m t e, (check_targets_iff env disk m ts).0 h)),
    (λ (_, h). (check_targets_iff env disk m ts).1 h),
  )
  | inr e ↦ (
    (λ h. absurd (ground (arith, h, e))),
    (λ (v, _). absurd (ground (arith, may_write_complete env disk m t v, e))),
  )
]

pub track_read-records :
    (env : Env) (disk : Disk) (input : Json) (raw : Option String) (s : FileState) (p : String)
    (snapshot : Snapshot)
    → truthy (extract_file_path input) ≡ some p
    → read_snapshot env disk (expand_path env p) raw ≡ some snapshot
    → verified_hash ((track_read env disk input raw s).file_verification_state) (expand_path env p)
      ≡ some snapshot.hash
unfolding track_read apply_file_verification_state_actions apply_file_verification_state_action
track_read-records env disk input raw s p snapshot named seen = ground (
  arith,
  named,
  seen,
  lookup-insert (expand_path env p) (expand_path env p)
      (record { last_verified_hash = some snapshot.hash }) s.file_verification_state,
  eq_iff (expand_path env p) (expand_path env p),
)

-- The file is not there, or it has the hash.
abbrev pub HasHash : Env → Disk → String → String → Type 0
HasHash env disk hash path =
    (disk path ≡ missing)
    ⊎ ((text : String) × ((read_regular_file disk path ≡ some text)
          × (env.hash_content text ≡ hash)))

-- After a read of a named file that recorded a hash which is not empty, and from then on whatever
-- happens to the disk, the test before a write lets that file pass exactly when it is gone or its
-- present text has the recorded hash.
pub track_read-may_write_iff :
    (env : Env) (disk disk' : Disk) (input : Json) (raw : Option String) (s : FileState)
    (p : String) (snapshot : Snapshot)
    → truthy (extract_file_path input) ≡ some p
    → read_snapshot env disk (expand_path env p) raw ≡ some snapshot
    → snapshot.hash ≢ ""
    → (may_write env disk'
          ((track_read env disk input raw s).file_verification_state)
          (tracked env p)
        ≡ true)
      ↔ HasHash env disk' snapshot.hash (expand_path env p)
track_read-may_write_iff env disk disk' input raw s p snapshot named seen h =
    let m = (track_read env disk input raw s).file_verification_state in
    let t = tracked env p in
    let recorded = track_read-records env disk input raw s p snapshot named seen in
    (
      (λ w. elim (may_write_sound env disk' m t w) [
        | inl e ↦ inl e
        | inr (text, (r, (v, _))) ↦ inr (text, (r, cc))
      ]),
      (λ has. may_write_complete env disk' m t (elim has [
        | inl e ↦ inl e
        | inr (text, (r, v)) ↦ inr (text, (r, (rw v recorded, (λ e. h (cc)))))
      ])),
    )

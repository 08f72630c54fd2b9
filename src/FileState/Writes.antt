-- ===== src/FileState/Writes.antt =====
-- packages/agentlayer-filesystem/src/hooks/file-state.ts: the hook before a write, for the paths that
-- the input of the tool names.
use agentlayer.Prelude.{
  ◌≡◌, ◌≢◌, ◌↔◌, inl, inr, refl, sym, ◌∙◌, String, true, false, Option, none, some, List, [], ◌∷◌,
  ◌++◌, ◌==◌, arith, eq_iff, any, All, All-append, Bool-cases, Option-cases,
}
use mathlib.Core.Path.{subst}
use agentlayer.Prelude.Json.{Json}
use agentlayer.FileState.{
  FileState, Env, Disk, TrackedPath, tracked, truthy, expand_path, PatchOperation, write_file,
  delete_file, move_file, extract_file_path, extract_patch_text, dedupe_tracked_paths,
  operation_targets, all_targets, is_write_tool, read_before_write_hook, get_write_path_targets,
  next,
}
use agentlayer.FileState.Guarantees.{IsVerified, check_targets_iff}

-- The statement holds of each path that the operation writes, deletes or moves to; a move to the
-- empty path is none.
abbrev pub OfOperation : (String → Type 0) → PatchOperation → Type 0
OfOperation P (write_file p) = P p
OfOperation P (delete_file p) = P p
OfOperation P (move_file p none) = P p
OfOperation P (move_file p (some q)) = P p × (q ≢ "" → P q)

-- The statement holds of each path that the call names: for a patch, those of its operations, where
-- its text is given, not empty and can be parsed; else the file path, where one is given that is not
-- empty.
pub record OfCall (env : Env) (P : String → Type 0) (tool_name : String) (input : Json)
    : Type 0 where
  pub patched :
      (text : String) (ops : List PatchOperation)
      → tool_name ≡ "apply_patch"
      → extract_patch_text input ≡ some text
      → text ≢ ""
      → env.parse_patch text ≡ some ops
      → All (OfOperation P) ops
  pub named :
      (p : String) → tool_name ≢ "apply_patch" → extract_file_path input ≡ some p → p ≢ "" → P p

truthy-present : (o : Option String) (s : String) → o ≡ some s → s ≢ "" → truthy o ≡ some s
unfolding truthy
truthy-present o s e h = ground (arith, e, eq_iff s "")

truthy-given : (o : Option String) (s : String) → truthy o ≡ some s → (o ≡ some s) × (s ≢ "")
unfolding truthy
truthy-given none s h = absurd (cc)
truthy-given (some t) s h = ground (arith, eq_iff t "")

some_inj : {A : Type 0} (a b : A) → some a ≡ some b → a ≡ b
some_inj a b e = cc

-- A statement on resolved paths.
module _ (env : Env) (R : String → Type 0) where
  abbrev Holds : List TrackedPath → Type 0
  Holds ts = All (λ t. R t.resolved_path) ts

  any-All :
      (path : String) (seen : List String) → any (λ p. p == path) seen ≡ true → All R seen → R path
  any-All path [] e h = absurd (cc)
  any-All path (p ∷ seen) e (h, hs) = elim (Bool-cases (p == path)) [
    | inl q ↦ rw (sym ((eq_iff p path).0 q)) h
    | inr q ↦ any-All path seen (rw q at e) hs
  ]

  dedupe_tracked_paths_complete :
      (seen : List String) (ts : List TrackedPath)
      → All R seen
      → Holds (dedupe_tracked_paths seen ts)
      → Holds ts
  unfolding dedupe_tracked_paths
  dedupe_tracked_paths_complete seen [] h k = tt
  dedupe_tracked_paths_complete seen (t ∷ ts) h k =
      elim (Bool-cases (any (λ p. p == t.resolved_path) seen)) [
        | inl e ↦ (
          any-All t.resolved_path seen e h,
          dedupe_tracked_paths_complete seen ts h (rw (e, dedupe_tracked_paths) at k),
        )
        | inr e ↦
            let parts = rw (e, dedupe_tracked_paths) at k in
            (
              parts.0,
              dedupe_tracked_paths_complete (t.resolved_path ∷ seen) ts (parts.0, h) parts.1,
            )
      ]

  dedupe_tracked_paths_sound :
      (seen : List String) (ts : List TrackedPath) → Holds ts → Holds (dedupe_tracked_paths seen ts)
  unfolding dedupe_tracked_paths
  dedupe_tracked_paths_sound seen [] h = tt
  dedupe_tracked_paths_sound seen (t ∷ ts) (h, hs) =
      elim (Bool-cases (any (λ p. p == t.resolved_path) seen)) [
        | inl e ↦ rw e (dedupe_tracked_paths_sound seen ts hs)
        | inr e ↦ rw e (h, dedupe_tracked_paths_sound (t.resolved_path ∷ seen) ts hs)
      ]

  abbrev Named : String → Type 0
  Named p = R (expand_path env p)

  All-split : (ts us : List TrackedPath) → Holds (ts ++ us) → Holds ts × Holds us
  All-split [] us h = (tt, h)
  All-split (t ∷ ts) us (h, hs) = let r = All-split ts us hs in ((h, r.0), r.1)

  operation_targets_iff :
      (op : PatchOperation) → Holds (operation_targets env op) ↔ OfOperation Named op
  unfolding operation_targets
  operation_targets_iff (write_file p) = ((λ h. h.0), (λ h. (h, tt)))
  operation_targets_iff (delete_file p) = ((λ h. h.0), (λ h. (h, tt)))
  operation_targets_iff (move_file p none) = unfold truthy in ((λ h. h.0), (λ h. (h, tt)))
  operation_targets_iff (move_file p (some q)) = elim (Option-cases (truthy (some q))) [
    | inl e ↦ rw e (
      (λ h. (h.0, (λ k. absurd (let f = truthy-present (some q) q refl k in cc)))),
      (λ h. (h.0, tt)),
    )
    | inr (r, e) ↦
        let given = truthy-given (some q) r e in
        let same : r ≡ q = sym (some_inj q r given.0) in
        rw e (
          (λ h. (h.0, (λ k. rw (sym same) h.1.0))),
          (λ h. (h.0, (rw same (h.1 (rw same at given.1)), tt))),
        )
  ]

  all_targets_iff :
      (ops : List PatchOperation) → Holds (all_targets env ops) ↔ All (OfOperation Named) ops
  unfolding all_targets
  all_targets_iff [] = ((λ h. h), (λ h. h))
  all_targets_iff (op ∷ ops) = (
    (λ h.
        let r = All-split (operation_targets env op) (all_targets env ops) h in
        ((operation_targets_iff op).0 r.0, (all_targets_iff ops).0 r.1)),
    (λ h.
        All-append (λ t. R t.resolved_path) (operation_targets env op) (all_targets env ops)
          ((operation_targets_iff op).1 h.0) ((all_targets_iff ops).1 h.1)),
  )

  patch_targets_iff :
      (tool_name : String) (input : Json)
      → (tool_name == "apply_patch") ≡ true
      → Holds (get_write_path_targets env tool_name input) ↔ OfCall env Named tool_name input
  unfolding get_write_path_targets
  patch_targets_iff tool_name input e =
      let is_patch = (eq_iff tool_name "apply_patch").0 e in
      elim (Option-cases (truthy (extract_patch_text input))) [
        | inl n ↦
            rw (e, n, get_write_path_targets)
              (
                (λ _. record {
                  patched = λ text ops _ given full parsed.
                      absurd (let f = truthy-present _ text given full in cc);
                  named = λ p other _ _. absurd (other is_patch);
                }),
                (λ _. tt),
              )
        | inr (text, n) ↦
            let given = truthy-given (extract_patch_text input) text n in
            elim (Option-cases (env.parse_patch text)) [
              | inl f ↦
                  rw (e, n, f, get_write_path_targets)
                    (
                      (λ _. record {
                        patched = λ text' ops _ given' full parsed. absurd (cc);
                        named = λ p other _ _. absurd (other is_patch);
                      }),
                      (λ _. tt),
                    )
              | inr (ops, f) ↦
                  rw (e, n, f, get_write_path_targets)
                    (
                      (λ h. record {
                        patched = λ text' ops' _ given' full parsed.
                            let same : ops ≡ ops' = cc in
                            subst (All (OfOperation Named)) same (
                              (all_targets_iff ops).0
                                (dedupe_tracked_paths_complete [] (all_targets env ops) tt h));
                        named = λ p other _ _. absurd (other is_patch);
                      }),
                      (λ h. dedupe_tracked_paths_sound [] (all_targets env ops) (
                          (all_targets_iff ops).1 (h.patched text ops is_patch given.0 given.1 f))),
                    )
            ]
      ]

  file_targets_iff :
      (tool_name : String) (input : Json)
      → (tool_name == "apply_patch") ≡ false
      → Holds (get_write_path_targets env tool_name input) ↔ OfCall env Named tool_name input
  unfolding get_write_path_targets
  file_targets_iff tool_name input e =
      let no_patch : tool_name ≢ "apply_patch" =
        λ same. (let f = (eq_iff tool_name "apply_patch").1 same in cc) in
      elim (Option-cases (truthy (extract_file_path input))) [
        | inl n ↦
            rw (e, n, get_write_path_targets)
              (
                (λ _. record {
                  patched = λ text ops is_patch _ _ _. absurd (no_patch is_patch);
                  named = λ p _ given full. absurd (let f = truthy-present _ p given full in cc);
                }),
                (λ _. tt),
              )
        | inr (p, n) ↦
            let given = truthy-given (extract_file_path input) p n in
            rw (e, n, get_write_path_targets)
              (
                (λ h. record {
                  patched = λ text ops is_patch _ _ _. absurd (no_patch is_patch);
                  named =
                      λ p' _ given' full. subst Named (some_inj p p' (sym given.0 ∙ given')) h.0;
                }),
                (λ h. (h.named p no_patch given.0 given.1, tt)),
              )
      ]

  get_write_path_targets_iff :
      (tool_name : String) (input : Json)
      → Holds (get_write_path_targets env tool_name input) ↔ OfCall env Named tool_name input
  get_write_path_targets_iff tool_name input = elim (Bool-cases (tool_name == "apply_patch")) [
    | inl e ↦ patch_targets_iff tool_name input e
    | inr e ↦ file_targets_iff tool_name input e
  ]

-- The hook lets a write, an edit or a patch go on exactly when each path that the call names (the
-- file path, or the paths and move targets of the patch; none where it cannot be parsed), as
-- expandPath resolves it, is new on disk, or is a file whose present text has the hash, not empty,
-- that was recorded for the path.
pub read_before_write_hook-next_iff :
    (env : Env) (disk : Disk) (tool_name : String) (input : Json) (s : FileState)
    → is_write_tool tool_name ≡ true
    → (read_before_write_hook env disk tool_name input s ≡ next)
      ↔ OfCall env
          (λ p. IsVerified env disk s.file_verification_state (tracked env p))
          tool_name
          input
unfolding read_before_write_hook
read_before_write_hook-next_iff env disk tool_name input s w =
    let checks =
      check_targets_iff env disk s.file_verification_state
        (get_write_path_targets env tool_name input) in
    let names =
      get_write_path_targets_iff env
        (λ path.
          IsVerified env disk s.file_verification_state
            (record { resolved_path = path; display_path = path }))
        tool_name input in
    rw w ((λ h. names.0 (checks.0 h)), (λ h. checks.1 (names.1 h)))

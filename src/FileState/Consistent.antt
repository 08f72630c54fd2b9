-- ===== src/FileState/Consistent.antt =====
-- packages/agentlayer-filesystem/src/hooks/file-state.ts: the record of the reads stays about the
-- hash that was read last, through every action and every tool.
use agentlayer.Prelude.{
  ◌≡◌, inl, inr, refl, sym, String, Bool, true, false, Option, some, List, [], ◌∷◌, arith, ◌==◌,
  eq_iff, Bool-cases, Option-cases, bind, if◌then◌else◌,
}
use agentlayer.Prelude.Records.{lookup, insert, remove, lookup-insert, lookup-remove}
use agentlayer.Prelude.Json.{Json}
use agentlayer.FileState.{
  WastedReadTracking, FileReadStateEntry, FileReadStateMap, FileReadStateAction, FileState, Env,
  Disk, truthy, expand_path, set_read_observation, extract_file_path, extract_patch_text,
  get_read_range,
}
use agentlayer.FileState.Ranges.{IsSeparated, add_covered_range_lem}
use agentlayer.FileState.Actions.{
  ranges_of, read_snapshot, track_read, track_write, track_patch, track_tool_use,
  patch_read_actions, tracking_of, apply_file_read_state_action, apply_file_read_state_actions,
}

-- The record of an entry is about the hash of the entry, and its ranges do not touch.
abbrev pub IsSound : FileReadStateEntry → Type 0
IsSound e =
    (w : WastedReadTracking)
    → e.wasted_read ≡ some w
    → IsSeparated w.ranges × (e.last_read_hash ≡ some w.hash)

abbrev pub IsConsistent : FileReadStateMap → Type 0
IsConsistent m = (path : String) (e : FileReadStateEntry) → lookup path m ≡ some e → IsSound e

some-injective : {w w' : WastedReadTracking} → some w ≡ some w' → w ≡ w'
some-injective g = cc

insert-IsConsistent :
    (m : FileReadStateMap) (k : String) (e : FileReadStateEntry)
    → IsSound e
    → IsConsistent m
    → IsConsistent (insert k e m)
insert-IsConsistent m k e sound h j f found = elim (Bool-cases (k == j)) [
  | inl y ↦
      let same : e ≡ f = ground (arith, found, y, lookup-insert k j e m) in
      λ w g. let (a, b) = sound w (ground (arith, same, g)) in (a, ground (arith, same, b))
  | inr n ↦ h j f (ground (arith, found, n, lookup-insert k j e m))
]

remove-IsConsistent :
    (m : FileReadStateMap) (k : String) → IsConsistent m → IsConsistent (remove k m)
remove-IsConsistent m k h j f found = h j f (ground (arith, found, lookup-remove k j m))

tracking_of-IsSound :
    (m : FileReadStateMap) (from hash : String) (w : WastedReadTracking)
    → IsConsistent m
    → tracking_of hash (lookup from m) ≡ some w
    → IsSeparated w.ranges × (w.hash ≡ hash)
unfolding tracking_of
tracking_of-IsSound m from hash w h g = elim (Option-cases (lookup from m)) [
  | inl e ↦ absurd (ground (arith, e, g))
  | inr (entry, e) ↦ elim (Option-cases entry.wasted_read) [
    | inl f ↦ absurd (ground (arith, e, f, g))
    | inr (w', f) ↦
        let sound = h from entry e w' f in
        let same : w' ≡ w = ground (arith, e, f, g) in
        rw (sym same) (sound.0, ground (arith, e, f, g, eq_iff w'.hash hash))
  ]
]

moved-IsSound :
    (m : FileReadStateMap) (from last hash : String)
    → IsConsistent m
    → bind (lookup from m) (λ x. x.last_read_hash) ≡ some last
    → (last == hash) ≡ true
    → IsSound
        (record { last_read_hash = some last; wasted_read = tracking_of hash (lookup from m) })
moved-IsSound m from last hash h f g w t =
    let (apart, same) = tracking_of-IsSound m from hash w h t in
    (apart, ground (arith, eq_iff last hash, g, same))

apply-IsConsistent :
    (m : FileReadStateMap) (a : FileReadStateAction)
    → IsConsistent m
    → IsConsistent (apply_file_read_state_action m a)
unfolding apply_file_read_state_action
apply-IsConsistent m (set_read_observation path hash total_lines read_range) h =
    let ranges = ranges_of (tracking_of hash (lookup path m)) in
    let apart = (add_covered_range_lem 0 ranges read_range).1 in
    insert-IsConsistent m path _ (λ w g. rw (sym (some-injective g)) (apart, refl)) h
apply-IsConsistent m (FileReadStateAction.delete path) h = remove-IsConsistent m path h
apply-IsConsistent m (FileReadStateAction.move from to target) h =
    let rest = remove-IsConsistent m from h in
    elim (Option-cases (truthy target)) [
      | inl e ↦ rw (apply_file_read_state_action, e) rest
      | inr (hash, e) ↦ elim (Option-cases (bind (lookup from m) (λ x. x.last_read_hash))) [
        | inl f ↦ rw (apply_file_read_state_action, e, f) rest
        | inr (last, f) ↦ elim (Bool-cases (last == hash)) [
          | inl g ↦
              rw (apply_file_read_state_action, e, f, g)
                (insert-IsConsistent (remove from m) to _ (moved-IsSound m from last hash h f g)
                  rest)
          | inr g ↦ rw (apply_file_read_state_action, e, f, g) rest
        ]
      ]
    ]

-- The actions of the tracking hook keep the record of the reads consistent.
pub apply_file_read_state_actions-IsConsistent :
    (m : FileReadStateMap) (actions : List FileReadStateAction)
    → IsConsistent m
    → IsConsistent (apply_file_read_state_actions m actions)
unfolding apply_file_read_state_actions
apply_file_read_state_actions-IsConsistent m [] h = h
apply_file_read_state_actions-IsConsistent m (a ∷ actions) h =
    apply_file_read_state_actions-IsConsistent (apply_file_read_state_action m a) actions
      (apply-IsConsistent m a h)

pub track_read-IsConsistent :
    (env : Env) (disk : Disk) (input : Json) (raw : Option String) (s : FileState)
    → IsConsistent s.file_read_state
    → IsConsistent ((track_read env disk input raw s).file_read_state)
unfolding track_read
track_read-IsConsistent env disk input raw s h =
    elim (Option-cases (truthy (extract_file_path input))) [
      | inl e ↦ rw (track_read, e) h
      | inr (p, e) ↦ elim (Option-cases (read_snapshot env disk (expand_path env p) raw)) [
        | inl f ↦ rw (track_read, e, f) h
        | inr (snapshot, f) ↦
            rw (track_read, e, f)
              (apply_file_read_state_actions-IsConsistent s.file_read_state
                (set_read_observation (expand_path env p) snapshot.hash snapshot.total_lines
                    (get_read_range input)
                  ∷ [])
                h)
      ]
    ]

track_patch-IsConsistent :
    (env : Env) (disk : Disk) (input : Json) (s : FileState)
    → IsConsistent s.file_read_state
    → IsConsistent ((track_patch env disk input s).file_read_state)
unfolding track_patch
track_patch-IsConsistent env disk input s h =
    elim (Option-cases (bind (truthy (extract_patch_text input)) env.parse_patch)) [
      | inl e ↦ rw (track_patch, e) h
      | inr (ops, e) ↦
          rw (track_patch, e)
            (apply_file_read_state_actions-IsConsistent s.file_read_state
              (patch_read_actions env disk ops) h)
    ]

track_write-reads :
    (env : Env) (disk : Disk) (input : Json) (s : FileState)
    → (track_write env disk input s).file_read_state ≡ s.file_read_state
unfolding track_write
track_write-reads env disk input s = ground arith

if-IsConsistent :
    (b : Bool) (s t : FileState)
    → IsConsistent s.file_read_state
    → IsConsistent t.file_read_state
    → IsConsistent ((if b then s else t).file_read_state)
if-IsConsistent true s t h k = h
if-IsConsistent false s t h k = k

-- Whatever tool ran and whatever is on disk, the tracking hook keeps the record of the reads
-- consistent: what it holds of a path is about the hash last read there, and the ranges of lines
-- that it holds are separated.
pub track_tool_use-IsConsistent :
    (env : Env) (disk : Disk) (tool_name : String) (input : Json) (raw : Option String)
    (s : FileState)
    → IsConsistent s.file_read_state
    → IsConsistent ((track_tool_use env disk tool_name input raw s).file_read_state)
unfolding track_tool_use
track_tool_use-IsConsistent env disk tool_name input raw s h =
    let write : IsConsistent ((track_write env disk input s).file_read_state) =
      rw (track_write-reads env disk input s) h in
    let patch = track_patch-IsConsistent env disk input s h in
    if-IsConsistent (tool_name == "read") _ _ (track_read-IsConsistent env disk input raw s h) (
      if-IsConsistent (tool_name == "write") _ _ write (
        if-IsConsistent (tool_name == "edit") _ _ write
          (if-IsConsistent (tool_name == "apply_patch") (track_patch env disk input s) s patch h)))

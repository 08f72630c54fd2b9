-- ===== src/FileState/Actions.antt =====
-- packages/agentlayer-filesystem/src/hooks/file-state.ts: the tracking hook after a tool, the
-- actions it derives, and how they change the two maps. The raw output of a read counts only when
-- it is a text.
use agentlayer.Prelude.{ℕ, String, Option, none, some, List, [], ◌∷◌, ◌==◌, if◌then◌else◌, bind}
use agentlayer.Prelude.Records.{lookup, insert, remove}
use agentlayer.Prelude.Json.{Json}
use agentlayer.Messages.{sanitize_text}
use agentlayer.FileState.{
  WastedReadTracking, FileReadStateEntry, FileReadStateMap, FileVerificationStateMap, FileState,
  FileReadStateAction, FileVerificationStateAction, PatchOperation, write_file, delete_file,
  move_file, Env, Disk, truthy, expand_path, get_total_lines, read_regular_file, compute_file_hash,
  extract_file_path, extract_patch_text, get_read_range, set_read_observation, set_verified,
}
use agentlayer.FileState.Ranges.{LineRange, add_covered_range}

pub record Snapshot : Type 0 where
  pub hash : String
  pub total_lines : ℕ

unfoldable pub snapshot_of : Env → String → Snapshot
unfolding get_total_lines
snapshot_of env text = record { hash = env.hash_content text; total_lines = get_total_lines text }

unfoldable pub compute_file_snapshot : Env → Disk → String → Option Snapshot
unfolding read_regular_file snapshot_of
compute_file_snapshot env disk path = elim (read_regular_file disk path) [
  | none ↦ none
  | some text ↦ some (snapshot_of env text)
]

unfoldable pub get_snapshot_for_read_output : Env → String → Snapshot
unfolding sanitize_text snapshot_of
get_snapshot_for_read_output env output = snapshot_of env (sanitize_text output)

-- `wastedRead` of an entry, when its hash is the given one
unfoldable pub tracking_of : String → Option FileReadStateEntry → Option WastedReadTracking
tracking_of hash entry =
    bind (bind entry (λ e. e.wasted_read)) (λ w. if w.hash == hash then some w else none)

abbrev pub ranges_of : Option WastedReadTracking → List LineRange
ranges_of none = []
ranges_of (some w) = w.ranges

unfoldable pub apply_file_read_state_action :
    FileReadStateMap → FileReadStateAction → FileReadStateMap
unfolding tracking_of truthy insert remove lookup add_covered_range
apply_file_read_state_action m (set_read_observation path hash total_lines read_range) =
    insert path
      (record {
        last_read_hash = some hash;
        wasted_read = some (record {
          hash = hash;
          total_lines = total_lines;
          ranges = add_covered_range (ranges_of (tracking_of hash (lookup path m))) read_range;
        });
      })
      m
apply_file_read_state_action m (FileReadStateAction.delete path) = remove path m
apply_file_read_state_action m (FileReadStateAction.move from to target_hash) =
    let source = lookup from m in
    elim (truthy target_hash) [
      | none ↦ remove from m
      | some hash ↦ elim (bind source (λ e. e.last_read_hash)) [
        | none ↦ remove from m
        | some last ↦
            if last == hash
            then insert to
                (record { last_read_hash = some last; wasted_read = tracking_of hash source })
                (remove from m)
            else remove from m
      ]
    ]

unfoldable pub apply_file_read_state_actions :
    FileReadStateMap → List FileReadStateAction → FileReadStateMap
unfolding apply_file_read_state_action
apply_file_read_state_actions m [] = m
apply_file_read_state_actions m (a ∷ actions) =
    apply_file_read_state_actions (apply_file_read_state_action m a) actions

unfoldable pub apply_file_verification_state_action :
    FileVerificationStateMap → FileVerificationStateAction → FileVerificationStateMap
unfolding truthy insert remove
apply_file_verification_state_action m (set_verified path hash) =
    insert path (record { last_verified_hash = some hash }) m
apply_file_verification_state_action m (FileVerificationStateAction.delete path) = remove path m
apply_file_verification_state_action m (FileVerificationStateAction.move from to target_hash) =
    elim (truthy target_hash) [
      | none ↦ remove from m
      | some hash ↦ insert to (record { last_verified_hash = some hash }) (remove from m)
    ]

unfoldable pub apply_file_verification_state_actions :
    FileVerificationStateMap → List FileVerificationStateAction → FileVerificationStateMap
unfolding apply_file_verification_state_action
apply_file_verification_state_actions m [] = m
apply_file_verification_state_actions m (a ∷ actions) =
    apply_file_verification_state_actions (apply_file_verification_state_action m a) actions

-- The two actions on a state whose other map stays.
abbrev pub on_reads : List FileReadStateAction → FileState → FileState
on_reads actions s = record s {
  file_read_state = apply_file_read_state_actions s.file_read_state actions;
}

abbrev pub on_verified : List FileVerificationStateAction → FileState → FileState
on_verified actions s = record s {
  file_verification_state = apply_file_verification_state_actions s.file_verification_state actions;
}

unfoldable pub read_snapshot : Env → Disk → String → Option String → Option Snapshot
unfolding get_snapshot_for_read_output compute_file_snapshot
read_snapshot env disk path (some output) = some (get_snapshot_for_read_output env output)
read_snapshot env disk path none = compute_file_snapshot env disk path

unfoldable pub track_read : Env → Disk → Json → Option String → FileState → FileState
unfolding extract_file_path get_read_range read_snapshot truthy apply_file_read_state_actions
    apply_file_verification_state_actions
track_read env disk input raw_output s = elim (truthy (extract_file_path input)) [
  | none ↦ s
  | some read_path ↦
      let path = expand_path env read_path in
      elim (read_snapshot env disk path raw_output) [
        | none ↦ s
        | some snapshot ↦ on_verified (set_verified path snapshot.hash ∷ []) (
            on_reads
              (set_read_observation path snapshot.hash snapshot.total_lines (get_read_range input)
                ∷ [])
              s)
      ]
]

unfoldable pub track_write : Env → Disk → Json → FileState → FileState
unfolding extract_file_path compute_file_hash truthy apply_file_verification_state_actions
track_write env disk input s = elim (truthy (extract_file_path input)) [
  | none ↦ s
  | some file_path ↦
      let path = expand_path env file_path in
      elim (truthy (compute_file_hash env disk path)) [
        | none ↦ s
        | some hash ↦ on_verified (set_verified path hash ∷ []) s
      ]
]

unfoldable pub patch_read_actions : Env → Disk → List PatchOperation → List FileReadStateAction
unfolding compute_file_hash truthy
patch_read_actions env disk [] = []
patch_read_actions env disk (delete_file p ∷ ops) =
    FileReadStateAction.delete (expand_path env p) ∷ patch_read_actions env disk ops
patch_read_actions env disk (move_file p target ∷ ops) =
    let rest = patch_read_actions env disk ops in
    elim (truthy target) [
      | none ↦ rest
      | some q ↦
          let to = expand_path env q in
          FileReadStateAction.move (expand_path env p) to (compute_file_hash env disk to) ∷ rest
    ]
patch_read_actions env disk (write_file p ∷ ops) = patch_read_actions env disk ops

unfoldable pub patch_verification_actions :
    Env → Disk → List PatchOperation → List FileVerificationStateAction
unfolding compute_file_hash truthy
patch_verification_actions env disk [] = []
patch_verification_actions env disk (delete_file p ∷ ops) =
    FileVerificationStateAction.delete (expand_path env p) ∷ patch_verification_actions env disk ops
patch_verification_actions env disk (move_file p target ∷ ops) =
    let rest = patch_verification_actions env disk ops in
    elim (truthy target) [
      | none ↦ rest
      | some q ↦
          let to = expand_path env q in
          FileVerificationStateAction.move (expand_path env p) to (compute_file_hash env disk to)
          ∷ rest
    ]
patch_verification_actions env disk (write_file p ∷ ops) =
    let rest = patch_verification_actions env disk ops in
    let path = expand_path env p in
    elim (truthy (compute_file_hash env disk path)) [
      | none ↦ rest
      | some hash ↦ set_verified path hash ∷ rest
    ]

unfoldable pub track_patch : Env → Disk → Json → FileState → FileState
unfolding extract_patch_text truthy patch_read_actions patch_verification_actions
    apply_file_read_state_actions apply_file_verification_state_actions
track_patch env disk input s = elim (bind (truthy (extract_patch_text input)) env.parse_patch) [
  | none ↦ s
  | some ops ↦
      on_verified (patch_verification_actions env disk ops)
        (on_reads (patch_read_actions env disk ops) s)
]

unfoldable pub track_tool_use : Env → Disk → String → Json → Option String → FileState → FileState
unfolding track_read track_write track_patch
track_tool_use env disk tool_name input raw_output s =
    if tool_name == "read"
    then track_read env disk input raw_output s
    else if tool_name == "write"
    then track_write env disk input s
    else if tool_name == "edit"
    then track_write env disk input s
    else if tool_name == "apply_patch"
    then track_patch env disk input s
    else s

-- The hook after a compaction, on the two keys it deletes.
unfoldable pub compact_file_state : FileState → FileState
compact_file_state s = record s { file_read_state = []; file_verification_state = [] }

-- ===== src/FileState/Repeats.antt =====
-- packages/agentlayer-filesystem/src/hooks/file-state.ts: when a read is answered from the record of
-- earlier reads.
use agentlayer.Prelude.{
  ℕ, ◌≤◌, ◌≡◌, ◌≢◌, ◌↔◌, inl, inr, sym, ap, ◌∙◌, String, true, Option, none, some, List, arith,
  eq_iff, Option-cases, bind,
}
use agentlayer.Prelude.Records.{lookup, lookup-insert}
use agentlayer.Prelude.Json.{Json, num}
use agentlayer.FileState.{
  WastedReadTracking, FileReadStateEntry, FileReadStateMap, FileState, Env, Disk, truthy,
  expand_path, read_regular_file, compute_file_hash, extract_file_path, is_wasted, wasted_read_hook,
  next, get_read_range, normalize_positive_integer, input_field,
}
use agentlayer.FileState.Ranges.{
  LineRange, Within, covers, add_covered_range, add_covered_range_lem, is_range_covered,
  is_range_covered_iff,
}
use agentlayer.FileState.Actions.{
  Snapshot, ranges_of, read_snapshot, track_read, tracking_of, apply_file_read_state_action,
  apply_file_read_state_actions,
}
use agentlayer.FileState.Guarantees.{verified_hash, track_read-records}
use agentlayer.FileState.Consistent.{IsConsistent, track_read-IsConsistent}

-- What was read of a path, if anything.
abbrev pub wasted_of : FileReadStateMap → String → Option WastedReadTracking
wasted_of m path = bind (lookup path m) (λ e. e.wasted_read)

-- The present text of a path is the one that was read and verified, and each of the lines asked for
-- was read from it.
abbrev pub IsRepeat : Env → Disk → String → LineRange → FileState → Type 0
IsRepeat env disk path q s =
    (text : String) × ((w : WastedReadTracking) × ((read_regular_file disk path ≡ some text)
        × ((env.hash_content text ≢ "")
            × ((verified_hash s.file_verification_state path ≡ some (env.hash_content text))
                × ((wasted_of s.file_read_state path ≡ some w)
                    × ((w.hash ≡ env.hash_content text)
                        × ((n : ℕ) → Within n q → covers w.ranges n ≡ true)))))))

is_wasted_sound :
    (env : Env) (disk : Disk) (path : String) (q : LineRange) (s : FileState)
    → IsConsistent s.file_read_state
    → q.start_line ≤ q.end_line
    → is_wasted env disk path q s ≡ true
    → IsRepeat env disk path q s
unfolding is_wasted compute_file_hash truthy
is_wasted_sound env disk path q s sound v h = elim (Option-cases (lookup path s.file_read_state)) [
  | inl e ↦ absurd (ground (arith, h, e))
  | inr (entry, e) ↦ elim (Option-cases entry.wasted_read) [
    | inl f ↦ absurd (ground (arith, h, e, f))
    | inr (w, f) ↦ elim (Option-cases (read_regular_file disk path)) [
      | inl g ↦ absurd (ground (arith, h, e, f, g))
      | inr (text, g) ↦
          let (apart, same) = sound path entry e w f in
          let read = env.hash_content text in
          let both : (w.hash ≡ read) × ((read ≢ "") × (is_range_covered w.ranges q ≡ true)) =
            ground (arith, h, e, f, g, same, eq_iff read w.hash, eq_iff w.hash "") in
          let ver : verified_hash s.file_verification_state path ≡ some read =
            elim (Option-cases (verified_hash s.file_verification_state path)) [
              | inl i ↦ absurd (ground (arith, h, e, f, g, same, i))
              | inr (u, i) ↦ ground (arith, h, e, f, g, same, i, eq_iff read w.hash, eq_iff u read)
            ] in
          (
            text,
            (
              w,
              (
                g,
                (
                  both.1.0,
                  (
                    ver,
                    (
                      ground (arith, e, f),
                      (both.0, (is_range_covered_iff w.ranges q apart v).0 both.1.1),
                    ),
                  ),
                ),
              ),
            ),
          )
    ]
  ]
]

is_wasted_complete :
    (env : Env) (disk : Disk) (path : String) (q : LineRange) (s : FileState)
    → IsConsistent s.file_read_state
    → q.start_line ≤ q.end_line
    → IsRepeat env disk path q s
    → is_wasted env disk path q s ≡ true
unfolding is_wasted compute_file_hash truthy
is_wasted_complete env disk path q s sound v (text, (w, (r, (ne, (ver, (was, (same, all))))))) =
    elim (Option-cases (lookup path s.file_read_state)) [
      | inl e ↦ absurd (ground (arith, was, e))
      | inr (entry, e) ↦
          let f : entry.wasted_read ≡ some w = ground (arith, was, e) in
          let (apart, last) = sound path entry e w f in
          let covered = (is_range_covered_iff w.ranges q apart v).1 all in
          ground (
            arith,
            e,
            f,
            last,
            covered,
            r,
            ver,
            same,
            eq_iff (env.hash_content text) w.hash,
            eq_iff w.hash "",
          )
    ]

-- Over a consistent record, a read of at least one line is answered from the record exactly when
-- the file's present text has the hash, not empty, under which it was read and verified, and each
-- of the lines asked for lies in a range that was read from it.
pub is_wasted_iff :
    (env : Env) (disk : Disk) (path : String) (q : LineRange) (s : FileState)
    → IsConsistent s.file_read_state
    → q.start_line ≤ q.end_line
    → (is_wasted env disk path q s ≡ true) ↔ IsRepeat env disk path q s
is_wasted_iff env disk path q s sound v =
    (is_wasted_sound env disk path q s sound v, is_wasted_complete env disk path q s sound v)

normalize-positive :
    (value : Option Json) (fallback : ℕ)
    → 1 ≤ fallback
    → 1 ≤ normalize_positive_integer value fallback
unfolding normalize_positive_integer
normalize-positive none fallback h = h
normalize-positive (some (num n)) fallback h = ground (arith, h)
normalize-positive (some _) fallback h = h

get_read_range-IsNonempty :
    (input : Json) → (get_read_range input).start_line ≤ (get_read_range input).end_line
unfolding get_read_range
get_read_range-IsNonempty input =
    omega (arith, normalize-positive (input_field "limit" input) 2000 (omega arith))

track_read-wasted_of :
    (env : Env) (disk : Disk) (input : Json) (raw : Option String) (s : FileState) (p : String)
    (snapshot : Snapshot)
    → truthy (extract_file_path input) ≡ some p
    → read_snapshot env disk (expand_path env p) raw ≡ some snapshot
    → (ranges : List LineRange) × (wasted_of
          (track_read env disk input raw s).file_read_state
          (expand_path env p)
        ≡ some (record {
          hash = snapshot.hash;
          total_lines = snapshot.total_lines;
          ranges = add_covered_range ranges (get_read_range input);
        }))
unfolding track_read apply_file_read_state_actions apply_file_read_state_action
track_read-wasted_of env disk input raw s p snapshot named seen =
    let path = expand_path env p in
    let ranges = ranges_of (tracking_of snapshot.hash (lookup path s.file_read_state)) in
    let w : WastedReadTracking = record {
      hash = snapshot.hash;
      total_lines = snapshot.total_lines;
      ranges = add_covered_range ranges (get_read_range input);
    } in
    let entry : FileReadStateEntry = record {
      last_read_hash = some snapshot.hash;
      wasted_read = some w;
    } in
    (
      ranges,
      ground
          (arith, named, seen, lookup-insert path path entry s.file_read_state, eq_iff path path),
    )

added :
    (ranges : List LineRange) (q : LineRange) (n : ℕ)
    → Within n q
    → covers (add_covered_range ranges q) n ≡ true
added ranges q n w = ground (arith, (add_covered_range_lem n ranges q).0, w)

-- Over a consistent record, a read of a named file that recorded a hash which is not empty does
-- not run when it is asked for again, as long as the present text of the file has that hash.
pub wasted_read_hook-track_read :
    (env : Env) (disk disk' : Disk) (input : Json) (raw : Option String) (s : FileState)
    (p text : String) (snapshot : Snapshot)
    → IsConsistent s.file_read_state
    → truthy (extract_file_path input) ≡ some p
    → read_snapshot env disk (expand_path env p) raw ≡ some snapshot
    → snapshot.hash ≢ ""
    → read_regular_file disk' (expand_path env p) ≡ some text
    → env.hash_content text ≡ snapshot.hash
    → wasted_read_hook env disk' input (track_read env disk input raw s) ≢ next
unfolding wasted_read_hook
wasted_read_hook-track_read env disk disk' input raw s p text snapshot h named seen ne r same =
    let (ranges, was) = track_read-wasted_of env disk input raw s p snapshot named seen in
    let wasted =
      is_wasted_complete env disk' (expand_path env p) (get_read_range input)
        (track_read env disk input raw s) (track_read-IsConsistent env disk input raw s h)
        (get_read_range-IsNonempty input)
        (
          text,
          (
            _,
            (
              r,
              (
                λ e. ne (sym same ∙ e),
                (
                  track_read-records env disk input raw s p snapshot named seen
                      ∙ ap some (sym same),
                  (was, (sym same, λ n i. added ranges (get_read_range input) n i)),
                ),
              ),
            ),
          ),
        ) in
    λ e. absurd (ground (arith, named, wasted, e))

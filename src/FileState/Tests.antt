-- ===== src/FileState/Tests.antt =====
-- The file-state hooks on concrete files and ranges.
use Prim.Native.String.{◌++◌ as str_append}
use agentlayer.Prelude.{
  ℕ, ◌≡◌, ◌≢◌, ◌↔◌, refl, String, true, false, none, some, List, [], ◌∷◌, arith, ◌==◌, eq_iff,
  if◌then◌else◌, ◌||◌,
}
use agentlayer.Prelude.Records.{lookup}
use agentlayer.Prelude.Json.{Json, num, str, obj, field, end}
use agentlayer.FileState.{
  FileState, Env, Disk, regular, missing, next, answer, read_before_write_hook, wasted_read_hook,
  may_write, tracked, is_wasted, move_file, expand_path, truthy, extract_file_path,
}
use agentlayer.FileState.Ranges.{
  LineRange, add_covered_range, is_range_covered, covers, in_range, IsSeparated, Within,
  add_covered_range_lem, is_range_covered_iff,
}
use agentlayer.FileState.Actions.{read_snapshot, track_read, track_tool_use}
use agentlayer.FileState.Guarantees.{IsVerified, HasHash, track_read-may_write_iff}
use agentlayer.FileState.Writes.{OfCall, read_before_write_hook-next_iff}
use agentlayer.FileState.Consistent.{
  IsConsistent, track_read-IsConsistent, track_tool_use-IsConsistent,
}
use agentlayer.FileState.Repeats.{IsRepeat, is_wasted_iff, wasted_read_hook-track_read}

abbrev lines : ℕ → ℕ → LineRange
lines a b = record { start_line = a; end_line = b }

abbrev seen : List LineRange
seen = lines 1 10 ∷ lines 20 30 ∷ []

gap_closes : add_covered_range seen (lines 11 19) ≡ lines 1 30 ∷ []
unfolding add_covered_range
gap_closes = refl

gap_stays : add_covered_range seen (lines 12 18) ≡ lines 1 10 ∷ lines 12 18 ∷ lines 20 30 ∷ []
unfolding add_covered_range
gap_stays = refl

add_covered_range_lem_example :
    (covers (add_covered_range seen (lines 5 12)) 12 ≡ (covers seen 12 || in_range 12 (lines 5 12)))
    × IsSeparated (add_covered_range seen (lines 5 12))
add_covered_range_lem_example = add_covered_range_lem 12 seen (lines 5 12)

is_range_covered_iff_example :
    (is_range_covered seen (lines 21 25) ≡ true)
    ↔ ((n : ℕ) → Within n (lines 21 25) → covers seen n ≡ true)
is_range_covered_iff_example =
    is_range_covered_iff seen (lines 21 25) ((omega arith, tt), (tt, tt)) (omega arith)

-- A file system of two files; the hash marks the text; paths are absolute.
abbrev env : Env
env = record {
  hash_content = λ s. str_append "#" s;
  resolve = λ _ p. p;
  homedir = "/home";
  cwd = "/work";
  parse_patch = λ _. some (move_file "/a" (some "/b") ∷ []);
}

abbrev disk : Disk
disk path = if path == "/a" then regular "one" else missing

abbrev edited : Disk
edited path = if path == "/a" then regular "two" else missing

abbrev read_a : Json
read_a = obj (field "file_path" (str "/a") (field "offset" (num 3) (field "limit" (num 10) end)))

abbrev fresh : FileState
fresh = record { file_read_state = []; file_verification_state = [] }

abbrev after_read : FileState
after_read = track_read env disk read_a none fresh

fresh-IsConsistent : IsConsistent fresh.file_read_state
unfolding lookup
fresh-IsConsistent path e h = absurd (ground (arith, h))

unread_write_waits :
    read_before_write_hook env disk "write" read_a fresh
    ≡ answer "<system-reminder>You must read file /a before writing to it.</system-reminder>" true
unfolding read_before_write_hook expand_path lookup
unread_write_waits = refl

read_write_goes_on : read_before_write_hook env disk "write" read_a after_read ≡ next
unfolding read_before_write_hook track_read expand_path
read_write_goes_on = refl

repeat_is_answered :
    wasted_read_hook env disk read_a after_read
    ≡ answer
        "<system-reminder>File /a is already in your context and unchanged. Refer to the previous read result.</system-reminder>"
        false
unfolding wasted_read_hook track_read expand_path
repeat_is_answered = refl

edited_read_runs : wasted_read_hook env edited read_a after_read ≡ next
unfolding wasted_read_hook track_read expand_path
edited_read_runs = refl

abbrev patch_input : Json
patch_input = obj (field "patch_text" (str "*** Move") end)

abbrev both_files : Disk
both_files path = if path == "/b" then regular "three" else disk path

read_before_write_hook-next_iff_example :
    (read_before_write_hook env disk "apply_patch" patch_input after_read ≡ next)
    ↔ OfCall env
        (λ p. IsVerified env disk after_read.file_verification_state (tracked env p))
        "apply_patch"
        patch_input
read_before_write_hook-next_iff_example =
    read_before_write_hook-next_iff env disk "apply_patch" patch_input after_read refl

-- The target of a move that is there, and was not read.
moved_over_unread :
    read_before_write_hook env both_files "apply_patch" patch_input after_read
    ≡ answer "<system-reminder>You must read file /b before writing to it.</system-reminder>" true
unfolding read_before_write_hook track_read expand_path
moved_over_unread = refl

other_tools_go_on : read_before_write_hook env disk "read" patch_input fresh ≡ next
unfolding read_before_write_hook
other_tools_go_on = refl

abbrev one_hash : String
one_hash = "#one"

marked : one_hash ≢ ""
marked e = let equal : ("#one" == "") ≡ true = (eq_iff "#one" "").1 e in absurd (cc)

track_read-may_write_iff_example :
    (may_write env edited after_read.file_verification_state (tracked env "/a") ≡ true)
    ↔ HasHash env edited one_hash (expand_path env "/a")
unfolding track_read expand_path
track_read-may_write_iff_example =
    track_read-may_write_iff env disk edited read_a none fresh "/a"
      (record { hash = one_hash; total_lines = 1 }) refl refl marked

after_read-IsConsistent : IsConsistent after_read.file_read_state
after_read-IsConsistent = track_read-IsConsistent env disk read_a none fresh fresh-IsConsistent

is_wasted_iff_example :
    (is_wasted env disk "/a" (lines 4 8) after_read ≡ true)
    ↔ IsRepeat env disk "/a" (lines 4 8) after_read
is_wasted_iff_example =
    is_wasted_iff env disk "/a" (lines 4 8) after_read after_read-IsConsistent (omega arith)

track_tool_use-IsConsistent_example :
    IsConsistent
      ((track_tool_use env disk "apply_patch" patch_input none after_read).file_read_state)
track_tool_use-IsConsistent_example =
    track_tool_use-IsConsistent env disk "apply_patch" patch_input none after_read
      after_read-IsConsistent

wasted_read_hook-track_read_example :
    wasted_read_hook env disk read_a (track_read env disk read_a none fresh) ≢ next
unfolding expand_path truthy extract_file_path read_snapshot
wasted_read_hook-track_read_example =
    wasted_read_hook-track_read env disk disk read_a none fresh "/a" "one"
      (record { hash = one_hash; total_lines = 1 }) fresh-IsConsistent refl refl marked refl refl

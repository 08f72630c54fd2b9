-- ===== src/Compaction/Tests.antt =====
-- A conversation that is cut, and the theorems at it.
use agentlayer.Prelude.{
  ◌*◌, ◌≤◌, ◌<◌, ◌≡◌, refl, max, String, true, false, none, some, List, [], ◌∷◌, arith, drop,
}
use agentlayer.Prelude.Json.{str, null}
use agentlayer.Messages.{ModelMessage, user, assistant, tool, plain, parts, tool_call, tool_result}
use agentlayer.Compaction.{
  tail_tokens, find_boundary, is_cut, find_compaction_cut, plan_at, plan_compaction,
}
use agentlayer.Compaction.Policy.{compaction_usable_tokens, compaction_usable_tokens_bounds}
use agentlayer.Compaction.Cut.{
  IsDivision, find_compaction_cut-exhausts, find_compaction_cut-boundary,
  plan_compaction-IsDivision,
}

abbrev say : String → ModelMessage
say s = record { role = user; content = plain s; provider_options = none }

abbrev calls : String → ModelMessage
calls i = record {
  role = assistant;
  content = parts (record { body = tool_call i "read" null; provider_options = none } ∷ []);
  provider_options = none;
}

abbrev answers : String → ModelMessage
answers i = record {
  role = tool;
  content = parts (
      record { body = tool_result i "read" (str "some text") false; provider_options = none } ∷ []);
  provider_options = none;
}

abbrev talk : List ModelMessage
talk = say "begin" ∷ calls "a" ∷ answers "a" ∷ say "go on" ∷ []

-- The tokens are 2, 2, 3 and 2: a budget of 4 ends at the tool result, which is no cut, and the
-- next user message is taken.
cut_forward : find_compaction_cut talk 4 [] ≡ 3
unfolding find_compaction_cut
cut_forward = refl

cut_required : find_compaction_cut talk 4 ("a" ∷ []) ≡ 1
unfolding find_compaction_cut
cut_required = refl

planned : plan_compaction talk 4 ("a" ∷ []) ≡ some (plan_at talk 1)
unfolding plan_compaction
planned = refl

boundary : find_boundary 7 talk ≡ some 1
unfolding find_boundary
boundary = refl

boundary_cut : is_cut talk [] 1 ≡ true
unfolding is_cut
boundary_cut = refl

-- A result with no call can never be kept, so nothing is cut.
abbrev broken : List ModelMessage
broken = say "begin" ∷ calls "b" ∷ answers "a" ∷ answers "a" ∷ []

broken_boundary : find_boundary 4 broken ≡ some 2
unfolding find_boundary
broken_boundary = refl

broken_cut : find_compaction_cut broken 4 [] ≡ 0
unfolding find_compaction_cut
broken_cut = refl

plan_compaction-IsDivision_example : IsDivision talk ("a" ∷ []) (plan_at talk 1)
plan_compaction-IsDivision_example =
    plan_compaction-IsDivision talk 4 ("a" ∷ []) (plan_at talk 1) planned

find_compaction_cut-boundary_example :
    (find_compaction_cut talk 7 [] ≡ 1)
    × (max 1 7 ≤ tail_tokens (drop 1 talk))
    × (tail_tokens (drop 2 talk) < max 1 7)
find_compaction_cut-boundary_example =
    find_compaction_cut-boundary talk 7 [] 0 boundary boundary_cut

find_compaction_cut-exhausts_example : is_cut broken [] 1 ≡ false
find_compaction_cut-exhausts_example =
    find_compaction_cut-exhausts broken 4 [] 1 broken_boundary broken_cut 1 (omega arith)
      (omega arith)

compaction_usable_tokens_bounds_example :
    (1 ≤ compaction_usable_tokens 200000 none)
    × (compaction_usable_tokens 200000 none ≤ 200000)
    × (5 * 200000 ≤ 8 * compaction_usable_tokens 200000 none)
compaction_usable_tokens_bounds_example = compaction_usable_tokens_bounds 200000 none (omega arith)

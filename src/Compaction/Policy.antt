-- ===== src/Compaction/Policy.antt =====
-- packages/agentlayer-core/src/compaction/policy.ts: token budgets. A count of tokens is a
-- non-negative integer, so that `Math.floor` of one changes nothing; the ratios 0.8 and 0.5 are the
-- fractions 4/5 and 1/2.
use agentlayer.Prelude.{
  ℕ, ◌-◌, ◌*◌, ◌/◌, ◌≤◌, min, max, String, Bool, true, false, ◌&&◌, Option, none, some, arith, leb,
  ltb, if◌then◌else◌, or_value,
}

-- What a config object gives; `enabled` is false only where the caller says so.
pub record AutoCompactConfig : Type 0 where
  pub enabled : Option Bool
  pub threshold_tokens : Option ℕ
  pub context_window : Option ℕ
  pub reserve_tokens : Option ℕ
  pub keep_recent_tokens : Option ℕ
  pub compaction_prompt : Option String
  pub compaction_update_prompt : Option String

pub record ResolvedCompactionPolicy : Type 0 where
  pub enabled : Bool
  pub threshold_tokens : Option ℕ
  pub context_window : Option ℕ
  pub reserve_tokens : ℕ
  pub keep_recent_tokens : ℕ
  pub compaction_prompt : Option String
  pub compaction_update_prompt : Option String

abbrev pub default_compaction_reserve_tokens : ℕ
default_compaction_reserve_tokens = 16384

abbrev pub default_compaction_keep_recent_tokens : ℕ
default_compaction_keep_recent_tokens = 20000

abbrev pub max_compaction_output_tokens : ℕ
max_compaction_output_tokens = 32000

unfoldable pub resolve_compaction_max_output_tokens : Option ℕ → Option ℕ → Bool → ℕ
resolve_compaction_max_output_tokens reserve_tokens model_output_limit turn_prefix =
    let output_budget = max 1 (or_value reserve_tokens default_compaction_reserve_tokens) in
    let share = if turn_prefix then output_budget / 2 else output_budget * 4 / 5 in
    let reserved_cap = max 1 share in
    elim model_output_limit [ none ↦ reserved_cap | some limit ↦ max 1 (min reserved_cap limit) ]

abbrev default_policy : Bool → ResolvedCompactionPolicy
default_policy enabled = record {
  enabled = enabled;
  threshold_tokens = none;
  context_window = none;
  reserve_tokens = default_compaction_reserve_tokens;
  keep_recent_tokens = default_compaction_keep_recent_tokens;
  compaction_prompt = none;
  compaction_update_prompt = none;
}

unfoldable pub resolve_compaction_policy : Option AutoCompactConfig → ResolvedCompactionPolicy
resolve_compaction_policy none = default_policy true
resolve_compaction_policy (some config) =
    if or_value config.enabled true
    then record {
      enabled = true;
      threshold_tokens = config.threshold_tokens;
      context_window = config.context_window;
      reserve_tokens = or_value config.reserve_tokens default_compaction_reserve_tokens;
      keep_recent_tokens = or_value config.keep_recent_tokens default_compaction_keep_recent_tokens;
      compaction_prompt = config.compaction_prompt;
      compaction_update_prompt = config.compaction_update_prompt;
    }
    else default_policy false

-- The subtraction cannot pass zero: the two parts are at most 3/8 of the window.
unfoldable pub compaction_usable_tokens : ℕ → Option ℕ → ℕ
compaction_usable_tokens context_window reserve_tokens =
    let window = max 1 context_window in
    let output_budget = min max_compaction_output_tokens (window / 4) in
    let reserve = min (or_value reserve_tokens default_compaction_reserve_tokens) (window / 8) in
    max 1 (window - output_budget - reserve)

unfoldable pub resolve_compaction_threshold : ResolvedCompactionPolicy → Option ℕ → Option ℕ
unfolding compaction_usable_tokens
resolve_compaction_threshold policy context_window_limit = elim policy.threshold_tokens [
  | some tokens ↦ some (max 1 tokens)
  | none ↦ elim policy.context_window [
    | some window ↦ some (compaction_usable_tokens window (some policy.reserve_tokens))
    | none ↦ elim context_window_limit [
      | some window ↦ some (compaction_usable_tokens window (some policy.reserve_tokens))
      | none ↦ none
    ]
  ]
]

-- shouldCompactForThreshold of engine.ts
unfoldable pub should_compact_for_threshold : Option ℕ → ResolvedCompactionPolicy → Option ℕ → Bool
unfolding resolve_compaction_threshold
should_compact_for_threshold tokens policy context_window_limit = elim tokens [
  | none ↦ false
  | some n ↦
      if policy.enabled && ltb 0 n
      then (elim (resolve_compaction_threshold policy context_window_limit) [
        | none ↦ false
        | some threshold ↦ leb threshold n
      ])
      else false
]

-- For a positive window, the usable budget is positive, at most the window, and at least five
-- eighths of it.
pub compaction_usable_tokens_bounds :
    (window : ℕ) (reserve : Option ℕ)
    → 1 ≤ window
    → (1 ≤ compaction_usable_tokens window reserve)
      × (compaction_usable_tokens window reserve ≤ window)
      × (5 * window ≤ 8 * compaction_usable_tokens window reserve)
unfolding compaction_usable_tokens
compaction_usable_tokens_bounds window none pos = omega arith
compaction_usable_tokens_bounds window (some r) pos = omega arith

-- With a reserve of two or more tokens and a positive limit of the model, the output cap of a
-- summary is positive, at most the limit, and at most four fifths of the reserve.
pub resolve_compaction_max_output_tokens_bounds :
    (reserve limit : ℕ) (turn_prefix : Bool)
    → 2 ≤ reserve
    → 1 ≤ limit
    → (1 ≤ resolve_compaction_max_output_tokens (some reserve) (some limit) turn_prefix)
      × (resolve_compaction_max_output_tokens (some reserve) (some limit) turn_prefix ≤ limit)
      × (5 * resolve_compaction_max_output_tokens (some reserve) (some limit) turn_prefix
          ≤ 4 * reserve)
unfolding resolve_compaction_max_output_tokens
resolve_compaction_max_output_tokens_bounds reserve limit true h k = omega arith
resolve_compaction_max_output_tokens_bounds reserve limit false h k = omega arith

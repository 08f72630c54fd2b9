-- ===== src/Usage.antt =====
-- packages/agentlayer-core/src/token-usage.ts: the token accounting of a run. A counter is a natural
-- number, so that the code's clamps at 0 change nothing. A price is a natural number for one million
-- tokens, and a cost is in millionths of its unit; the rounding of floating-point numbers is left
-- out. The lookup of prices is a function of the model's key.
pub mod Reconciled
pub mod Totals
mod Tests
use agentlayer.Prelude.{
  ℕ, ◌+◌, ◌-◌, ◌*◌, min, String, Option, none, some, List, [], ◌∷◌, leb, if◌then◌else◌, or_value,
}
use agentlayer.Prelude.Records.{lookup, insert}

-- What is counted of the calls of one model, before costing.
pub record CallUsage : Type 0 where
  pub input_tokens : ℕ
  pub output_tokens : ℕ
  pub cache_read_tokens : ℕ
  pub cache_write_tokens : ℕ
  pub reasoning_tokens : ℕ
  pub no_cache_input_tokens : Option ℕ

-- The published figures of one model, or of all of them, which the source writes in one object.
pub record ModelTokenUsage : Type 0 where
  pub usage : CallUsage
  pub estimated_cost : Option ℕ

pub record TokenUsage : Type 0 where
  pub by_model : List (String × ModelTokenUsage)
  pub totals : ModelTokenUsage

pub record ModelPricing : Type 0 where
  pub input : ℕ
  pub output : ℕ
  pub cache_read : Option ℕ
  pub cache_write : Option ℕ

abbrev pub PricingLookup : Type 0
PricingLookup = String → Option ModelPricing

-- The accumulator's `byModel`.
abbrev pub Accumulator : Type 0
Accumulator = List (String × CallUsage)

unfoldable pub sum_or_poison : Option ℕ → Option ℕ → Option ℕ
sum_or_poison none b = none
sum_or_poison (some a) none = none
sum_or_poison (some a) (some b) = some (a + b)

unfoldable pub add_usage : CallUsage → CallUsage → CallUsage
unfolding sum_or_poison
add_usage u v = record {
  input_tokens = u.input_tokens + v.input_tokens;
  output_tokens = u.output_tokens + v.output_tokens;
  cache_read_tokens = u.cache_read_tokens + v.cache_read_tokens;
  cache_write_tokens = u.cache_write_tokens + v.cache_write_tokens;
  reasoning_tokens = u.reasoning_tokens + v.reasoning_tokens;
  no_cache_input_tokens = sum_or_poison u.no_cache_input_tokens v.no_cache_input_tokens;
}

-- The method `add`
unfoldable pub add : String → CallUsage → Accumulator → Accumulator
unfolding add_usage lookup insert
add model_key usage acc = elim (lookup model_key acc) [
  | none ↦ insert model_key usage acc
  | some existing ↦ insert model_key (add_usage existing usage) acc
]

-- The provider's figure, where the reported categories cover the prompt.
unfoldable pub trusted_uncached : CallUsage → Option ℕ
trusted_uncached u = elim u.no_cache_input_tokens [
  | none ↦ none
  | some n ↦
      if leb u.input_tokens (n + u.cache_read_tokens + u.cache_write_tokens)
      then some (min n u.input_tokens)
      else none
]

unfoldable pub reconciled_read : CallUsage → ℕ
unfolding trusted_uncached
reconciled_read u = min u.cache_read_tokens (u.input_tokens - or_value (trusted_uncached u) 0)

unfoldable pub reconciled_write : CallUsage → ℕ
unfolding reconciled_read trusted_uncached
reconciled_write u =
    min u.cache_write_tokens (u.input_tokens - or_value (trusted_uncached u) 0 - reconciled_read u)

unfoldable pub priced_uncached : CallUsage → ℕ
unfolding trusted_uncached reconciled_read reconciled_write
priced_uncached u =
    or_value (trusted_uncached u) (u.input_tokens - reconciled_read u - reconciled_write u)

unfoldable pub cost_of : ModelPricing → CallUsage → ℕ
unfolding priced_uncached reconciled_read reconciled_write
cost_of p u =
    priced_uncached u * p.input
    + u.output_tokens * p.output
    + reconciled_read u * or_value p.cache_read p.input
    + reconciled_write u * or_value p.cache_write p.input

-- The figures that one model publishes.
unfoldable pub reconcile : CallUsage → CallUsage
unfolding trusted_uncached reconciled_read reconciled_write
reconcile u = record u {
  cache_read_tokens = reconciled_read u;
  cache_write_tokens = reconciled_write u;
  no_cache_input_tokens = trusted_uncached u;
}

abbrev empty_totals : ModelTokenUsage
empty_totals = record {
  usage = record {
    input_tokens = 0;
    output_tokens = 0;
    cache_read_tokens = 0;
    cache_write_tokens = 0;
    reasoning_tokens = 0;
    no_cache_input_tokens = some 0;
  };
  estimated_cost = none;
}

unfoldable pub publish : PricingLookup → String → CallUsage → ModelTokenUsage
unfolding reconcile cost_of
publish pricing model_key u = record {
  usage = reconcile u;
  estimated_cost = elim (pricing model_key) [ none ↦ none | some p ↦ some (cost_of p u) ];
}

unfoldable pub add_cost : Option ℕ → Option ℕ → Option ℕ
add_cost total none = total
add_cost total (some c) = some (or_value total 0 + c)

-- One round of the loop of `snapshot` on the totals.
unfoldable pub add_totals : ModelTokenUsage → ModelTokenUsage → ModelTokenUsage
unfolding add_usage add_cost
add_totals totals m = record {
  usage = add_usage totals.usage m.usage;
  estimated_cost = add_cost totals.estimated_cost m.estimated_cost;
}

unfoldable pub publish_all : PricingLookup → Accumulator → List (String × ModelTokenUsage)
unfolding publish
publish_all pricing [] = []
publish_all pricing ((k, u) ∷ acc) = (k, publish pricing k u) ∷ publish_all pricing acc

unfoldable pub total_from : ModelTokenUsage → List (String × ModelTokenUsage) → ModelTokenUsage
unfolding add_totals
total_from totals [] = totals
total_from totals ((k, m) ∷ ms) = total_from (add_totals totals m) ms

-- An empty accumulator has no uncached total.
unfoldable pub close_totals : Accumulator → ModelTokenUsage → ModelTokenUsage
close_totals [] totals = record totals {
  usage = record (totals.usage) { no_cache_input_tokens = none };
}
close_totals (_ ∷ _) totals = totals

unfoldable pub snapshot : PricingLookup → Accumulator → TokenUsage
unfolding publish_all total_from close_totals
snapshot pricing acc =
    let by_model = publish_all pricing acc in
    record { by_model = by_model; totals = close_totals acc (total_from empty_totals by_model) }

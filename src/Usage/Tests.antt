-- ===== src/Usage/Tests.antt =====
-- The accounting of two calls of one model and one of another.
use agentlayer.Prelude.{ℕ, ◌+◌, ◌≡◌, refl, Option, none, some, [], ◌∷◌, ◌==◌, if◌then◌else◌}
use agentlayer.Usage.{
  CallUsage, PricingLookup, Accumulator, add, snapshot, priced_uncached, reconciled_read,
  reconciled_write,
}
use agentlayer.Usage.Reconciled.{priced_uncached-partition, snapshot-partition}
use agentlayer.Usage.Totals.{snapshot-add}

abbrev call : ℕ → ℕ → Option ℕ → CallUsage
call input read uncached = record {
  input_tokens = input;
  output_tokens = 5;
  cache_read_tokens = read;
  cache_write_tokens = 0;
  reasoning_tokens = 1;
  no_cache_input_tokens = uncached;
}

abbrev pricing : PricingLookup
pricing model =
    if model == "a"
    then some (record { input = 3; output = 15; cache_read = some 1; cache_write = none })
    else none

abbrev acc : Accumulator
acc = ("a", call 100 60 (some 40)) ∷ ("b", call 10 0 (some 10)) ∷ []

totals_of_acc : (snapshot pricing acc).totals.usage.no_cache_input_tokens ≡ some 50
unfolding snapshot
totals_of_acc = refl

-- The figure 20 does not cover the prompt, so that the uncached tokens are derived.
uncovered : priced_uncached (call 100 60 (some 20)) ≡ 40
unfolding priced_uncached
uncovered = refl

cost_of_acc : (snapshot pricing acc).totals.estimated_cost ≡ some 255
unfolding snapshot
cost_of_acc = refl

priced_uncached-partition_example :
    priced_uncached (call 100 60 (some 20))
      + reconciled_read (call 100 60 (some 20))
      + reconciled_write (call 100 60 (some 20))
    ≡ 100
priced_uncached-partition_example = priced_uncached-partition (call 100 60 (some 20))

snapshot-partition_example :
    50
      + (snapshot pricing acc).totals.usage.cache_read_tokens
      + (snapshot pricing acc).totals.usage.cache_write_tokens
    ≡ (snapshot pricing acc).totals.usage.input_tokens
snapshot-partition_example = snapshot-partition pricing acc 50 totals_of_acc

snapshot-add_example :
    ((snapshot pricing (add "a" (call 7 0 none) acc)).totals.usage.input_tokens
      ≡ (snapshot pricing acc).totals.usage.input_tokens + 7)
    × (((snapshot pricing (add "a" (call 7 0 none) acc)).totals.usage.output_tokens
          ≡ (snapshot pricing acc).totals.usage.output_tokens + 5)
        × ((snapshot pricing (add "a" (call 7 0 none) acc)).totals.usage.reasoning_tokens
            ≡ (snapshot pricing acc).totals.usage.reasoning_tokens + 1))
snapshot-add_example = snapshot-add pricing "a" (call 7 0 none) acc

-- ===== src/Usage/Reconciled.antt =====
-- The published token counts: they divide the prompt, and totals add up.
use agentlayer.Prelude.{ℕ, ◌+◌, ◌≡◌, some, [], ◌∷◌, Option-cases, inl, inr, arith}
use agentlayer.Usage.{
  CallUsage, ModelTokenUsage, PricingLookup, Accumulator, add_usage, trusted_uncached,
  reconciled_read, reconciled_write, priced_uncached, reconcile, publish, publish_all, total_from,
  close_totals, snapshot, sum_or_poison, add_totals, empty_totals,
}

-- What is priced divides the prompt: the uncached tokens, those read from a cache and those written
-- to one add up to the input tokens.
pub priced_uncached-partition :
    (u : CallUsage) → priced_uncached u + reconciled_read u + reconciled_write u ≡ u.input_tokens
unfolding priced_uncached reconciled_read reconciled_write trusted_uncached
priced_uncached-partition u = ground arith

abbrev Divides : CallUsage → Type 0
Divides u =
    (n : ℕ)
    → u.no_cache_input_tokens ≡ some n
    → n + u.cache_read_tokens + u.cache_write_tokens ≡ u.input_tokens

reconcile-Divides : (u : CallUsage) → Divides (reconcile u)
unfolding reconcile priced_uncached
reconcile-Divides u n h = ground (arith, h, priced_uncached-partition u)

add_usage-Divides : (u v : CallUsage) → Divides u → Divides v → Divides (add_usage u v)
unfolding add_usage sum_or_poison
add_usage-Divides u v h k n e = elim (Option-cases u.no_cache_input_tokens) [
  | inl x ↦ absurd (ground (arith, e, x))
  | inr (a, x) ↦ elim (Option-cases v.no_cache_input_tokens) [
    | inl y ↦ absurd (ground (arith, e, x, y))
    | inr (b, y) ↦ ground (arith, e, x, y, h a x, k b y)
  ]
]

total_from-Divides :
    (pricing : PricingLookup) (acc : Accumulator) (totals : ModelTokenUsage)
    → Divides totals.usage
    → Divides ((total_from totals (publish_all pricing acc)).usage)
unfolding total_from publish_all publish add_totals
total_from-Divides pricing [] totals h = h
total_from-Divides pricing ((k, u) ∷ acc) totals h =
    total_from-Divides pricing acc (add_totals totals (publish pricing k u))
      (add_usage-Divides totals.usage (reconcile u) h (reconcile-Divides u))

-- Where the totals of a snapshot report uncached input tokens, these and the tokens read from and
-- written to caches add up to the input tokens of all the models.
pub snapshot-partition :
    (pricing : PricingLookup) (acc : Accumulator) (n : ℕ)
    → (snapshot pricing acc).totals.usage.no_cache_input_tokens ≡ some n
    → n
        + (snapshot pricing acc).totals.usage.cache_read_tokens
        + (snapshot pricing acc).totals.usage.cache_write_tokens
      ≡ (snapshot pricing acc).totals.usage.input_tokens
unfolding snapshot close_totals
snapshot-partition pricing [] n h = absurd (cc)
snapshot-partition pricing ((k, u) ∷ acc) n h =
    total_from-Divides pricing ((k, u) ∷ acc) empty_totals (λ m e. ground (arith, e)) n h

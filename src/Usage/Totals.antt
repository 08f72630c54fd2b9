-- ===== src/Usage/Totals.antt =====
-- The counters that no reconciliation changes: what is added is what the totals grow by.
use agentlayer.Prelude.{
  ℕ, ◌+◌, ◌≡◌, refl, String, none, some, [], ◌∷◌, Bool-cases, Option-cases, inl, inr, arith, ap,
  ◌∙◌, ◌==◌,
}
use agentlayer.Prelude.Records.{lookup, insert}
use agentlayer.Usage.{
  CallUsage, ModelTokenUsage, PricingLookup, Accumulator, add, add_usage, reconcile, publish,
  publish_all, total_from, close_totals, snapshot, add_totals, empty_totals,
}

-- A counter that `add_usage` adds up, and that the reconciliation and the end of a snapshot keep.
module _ (count : CallUsage → ℕ)
    (adds : (u v : CallUsage) → count (add_usage u v) ≡ count u + count v)
    (kept : (u : CallUsage) → count (reconcile u) ≡ count u)
    (closed : (u : CallUsage) → count (record u { no_cache_input_tokens = none }) ≡ count u) where
  sum : Accumulator → ℕ
  sum [] = 0
  sum ((k, u) ∷ acc) = count u + sum acc

  sum-insert_new :
      (k : String) (u : CallUsage) (acc : Accumulator)
      → lookup k acc ≡ none
      → sum (insert k u acc) ≡ sum acc + count u
  unfolding sum lookup insert
  sum-insert_new k u [] h = omega arith
  sum-insert_new k u ((j, v) ∷ acc) h = elim (Bool-cases (j == k)) [
    | inl e ↦ absurd (ground (arith, h, e))
    | inr n ↦ ground (arith, n, sum-insert_new k u acc (ground (arith, h, n)))
  ]

  sum-insert_old :
      (k : String) (u old : CallUsage) (acc : Accumulator)
      → lookup k acc ≡ some old
      → sum (insert k u acc) + count old ≡ sum acc + count u
  unfolding sum lookup insert
  sum-insert_old k u old [] h = absurd (cc)
  sum-insert_old k u old ((j, v) ∷ acc) h = elim (Bool-cases (j == k)) [
    | inl e ↦
        let same : count v ≡ count old = ap count (ground (arith, h, e)) in ground (arith, e, same)
    | inr n ↦ ground (arith, n, sum-insert_old k u old acc (ground (arith, h, n)))
  ]

  sum-add : (k : String) (u : CallUsage) (acc : Accumulator) → sum (add k u acc) ≡ sum acc + count u
  unfolding add
  sum-add k u acc = elim (Option-cases (lookup k acc)) [
    | inl e ↦ rw (add, e) (sum-insert_new k u acc e)
    | inr (old, e) ↦
        rw (add, e) (omega (arith, sum-insert_old k (add_usage old u) old acc e, adds old u))
  ]

  count-total_from :
      (pricing : PricingLookup) (acc : Accumulator) (totals : ModelTokenUsage)
      → count ((total_from totals (publish_all pricing acc)).usage) ≡ count totals.usage + sum acc
  unfolding total_from publish_all publish add_totals sum
  count-total_from pricing [] totals = omega arith
  count-total_from pricing ((k, u) ∷ acc) totals = omega (
    arith,
    count-total_from pricing acc (add_totals totals (publish pricing k u)),
    adds totals.usage (reconcile u),
    kept u,
  )

  count-close_totals :
      (acc : Accumulator) (totals : ModelTokenUsage)
      → count (close_totals acc totals).usage ≡ count totals.usage
  unfolding close_totals
  count-close_totals [] totals = closed totals.usage
  count-close_totals (x ∷ acc) totals = refl

  count-snapshot :
      (pricing : PricingLookup) (acc : Accumulator)
      → count (snapshot pricing acc).totals.usage ≡ count empty_totals.usage + sum acc
  unfolding snapshot
  count-snapshot pricing acc =
      count-close_totals acc (total_from empty_totals (publish_all pricing acc))
      ∙ count-total_from pricing acc empty_totals

  count-snapshot-add :
      (pricing : PricingLookup) (k : String) (u : CallUsage) (acc : Accumulator)
      → count (snapshot pricing (add k u acc)).totals.usage
        ≡ count (snapshot pricing acc).totals.usage + count u
  count-snapshot-add pricing k u acc =
      omega
        (arith, count-snapshot pricing (add k u acc), count-snapshot pricing acc, sum-add k u acc)

-- Adding the usage of a call raises the totals of the snapshot by the input, output and reasoning
-- tokens of the call, whether its model is known already or new.
pub snapshot-add :
    (pricing : PricingLookup) (k : String) (u : CallUsage) (acc : Accumulator)
    → ((snapshot pricing (add k u acc)).totals.usage.input_tokens
        ≡ (snapshot pricing acc).totals.usage.input_tokens + u.input_tokens)
      × (((snapshot pricing (add k u acc)).totals.usage.output_tokens
            ≡ (snapshot pricing acc).totals.usage.output_tokens + u.output_tokens)
          × ((snapshot pricing (add k u acc)).totals.usage.reasoning_tokens
              ≡ (snapshot pricing acc).totals.usage.reasoning_tokens + u.reasoning_tokens))
unfolding add_usage reconcile
snapshot-add pricing k u acc = (
  count-snapshot-add (λ v. v.input_tokens) (λ v w. refl) (λ v. refl) (λ v. refl) pricing k u acc,
  (
    count-snapshot-add (λ v. v.output_tokens) (λ v w. refl) (λ v. refl) (λ v. refl) pricing k u acc,
    count-snapshot-add (λ v. v.reasoning_tokens) (λ v w. refl) (λ v. refl) (λ v. refl) pricing k u
        acc,
  ),
)

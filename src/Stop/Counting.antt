-- ===== src/Stop/Counting.antt =====
-- When the failure counters of stop-conditions.ts fire.
use agentlayer.Prelude.{
  ℕ, ◌+◌, ◌≤◌, ◌≡◌, ◌↔◌, refl, String, true, ◌&&◌, Option, none, some, List, [], ◌∷◌, arith, leb,
  if◌then◌else◌, length, all, keep,
}
use agentlayer.Stop.{
  StepToolResult, Step, is_relevant, count_step, count_failures, total_tool_failures, next_streak,
  count_streak, consecutive_tool_failures,
}

-- The failed results of the tool in question.
abbrev pub failed : Option String → List StepToolResult → ℕ
failed tool_name trs = length (keep (λ tr. tr.is_error && is_relevant tool_name tr) trs)

abbrev pub failures : Option String → List Step → ℕ
failures tool_name [] = 0
failures tool_name (s ∷ steps) = failed tool_name s.tool_results + failures tool_name steps

module _ (threshold : ℕ) (tool_name : Option String) where
  count_step_lem :
      (count : ℕ) (trs : List StepToolResult)
      → count_step threshold tool_name count trs ≡ (
          if leb 1 (failed tool_name trs) && leb threshold (count + failed tool_name trs)
          then none
          else some (count + failed tool_name trs))
  unfolding count_step
  count_step_lem count [] = ground arith
  count_step_lem count (tr ∷ trs) =
      ground (arith, count_step_lem (count + 1) trs, count_step_lem count trs)

  count_failures_lem :
      (count : ℕ) (steps : List Step)
      → count_failures threshold tool_name count steps
        ≡ (leb 1 (failures tool_name steps) && leb threshold (count + failures tool_name steps))
  unfolding count_failures
  count_failures_lem count [] = ground arith
  count_failures_lem count (s ∷ steps) = ground (
    arith,
    count_step_lem count s.tool_results,
    count_failures_lem (count + failed tool_name s.tool_results) steps,
  )

-- `totalToolFailures` fires exactly when at least one result, and at least `threshold` results, of
-- the tool in question (of any tool, if none is named) are errors over all the steps.
pub total_tool_failures-fires_iff :
    (threshold : ℕ) (tool_name : Option String) (steps : List Step)
    → ((total_tool_failures threshold tool_name).check steps ≡ some true)
      ↔ ((1 ≤ failures tool_name steps) × (threshold ≤ failures tool_name steps))
unfolding total_tool_failures
total_tool_failures-fires_iff threshold tool_name steps =
    ground (arith, count_failures_lem threshold tool_name 0 steps)

failed_of_all :
    (tool_name : Option String) (trs : List StepToolResult)
    → all (λ tr. tr.is_error) (keep (is_relevant tool_name) trs) ≡ true
    → length (keep (is_relevant tool_name) trs) ≡ failed tool_name trs
failed_of_all tool_name [] h = refl
failed_of_all tool_name (tr ∷ trs) h = ground (arith, failed_of_all tool_name trs)

count_streak-le :
    (threshold : ℕ) (tool_name : Option String) (streak : ℕ) (steps : List Step)
    → 1 ≤ threshold
    → count_streak threshold tool_name streak steps ≡ true
    → threshold ≤ streak + failures tool_name steps
unfolding count_streak
count_streak-le threshold tool_name streak [] pos h = ground arith
count_streak-le threshold tool_name streak (s ∷ steps) pos h = ground (
  arith,
  failed_of_all tool_name s.tool_results,
  count_streak-le threshold tool_name streak steps pos,
  count_streak-le threshold tool_name
      (next_streak (keep (is_relevant tool_name) s.tool_results) streak) steps pos,
)

-- Where `consecutiveToolFailures` fires with a positive threshold, `totalToolFailures` with the
-- same threshold and tool fires as well.
pub consecutive-total :
    (threshold : ℕ) (tool_name : Option String) (steps : List Step)
    → 1 ≤ threshold
    → (consecutive_tool_failures threshold tool_name).check steps ≡ some true
    → (total_tool_failures threshold tool_name).check steps ≡ some true
unfolding consecutive_tool_failures
consecutive-total threshold tool_name steps pos h =
    (total_tool_failures-fires_iff threshold tool_name steps).1 (
      ground (arith, count_streak-le threshold tool_name 0 steps pos),
      ground (arith, count_streak-le threshold tool_name 0 steps pos),
    )

-- ===== src/State/Left.antt =====
-- Which decisions `withApprovals` passes on from an agent to its children.
use agentlayer.Prelude.{
  String, ◌≡◌, refl, ap, Bool, true, false, not, ◌&&◌, none, some, List, [], ◌∷◌, ◌==◌, eq_iff, any,
  keep, All, arith,
}
use agentlayer.State.{
  AgentState, fields, ApprovalDecision, PendingToolCall, Decided, is_approval, decision_for,
  leave_pending, consume, decide_entry, decide_entries, remaining_decisions,
}

-- The agent waits for an approval of the call.
abbrev pub waits_for : String → List PendingToolCall → Bool
waits_for i es = any (λ e. is_approval e && (e.tool_call_id == i)) es

-- What is left for the children of an agent, and for the agent at a path.
abbrev pub left_for_children : AgentState → List ApprovalDecision → List ApprovalDecision
left_for_children s ds = keep (λ d. not (waits_for d.tool_call_id (fields s).pending_tool_calls)) ds

abbrev is_decided : List ApprovalDecision → String → Bool
is_decided ds i = elim (decision_for ds i) [ none ↦ false | some d ↦ true ]

weaken-is_decided :
    (d : ApprovalDecision) (ds : List ApprovalDecision) (i : String)
    → is_decided ds i ≡ true
    → is_decided (d ∷ ds) i ≡ true
unfolding decision_for
weaken-is_decided d ds i h = ground (arith, h)

weaken-decided :
    (d : ApprovalDecision) (ds xs : List ApprovalDecision)
    → All (λ x. is_decided ds x.tool_call_id ≡ true) xs
    → All (λ x. is_decided (d ∷ ds) x.tool_call_id ≡ true) xs
weaken-decided d ds [] h = tt
weaken-decided d ds (x ∷ xs) (p, h) =
    (weaken-is_decided d ds x.tool_call_id p, weaken-decided d ds xs h)

given_calls : (ds : List ApprovalDecision) → All (λ x. is_decided ds x.tool_call_id ≡ true) ds
unfolding decision_for
given_calls [] = tt
given_calls (d ∷ ds) =
    (ground (arith, eq_iff d.tool_call_id d.tool_call_id), weaken-decided d ds ds (given_calls ds))

abbrev consumes : String → Decided → Bool
consumes i r = any (λ j. j == i) r.consumed_tool_call_ids

consumes-waits_for :
    (ds : List ApprovalDecision) (es : List PendingToolCall) (i : String)
    → is_decided ds i ≡ true
    → consumes i (decide_entries ds es) ≡ waits_for i es
unfolding decide_entries decide_entry leave_pending consume is_approval
consumes-waits_for ds [] i h = refl
consumes-waits_for ds (e ∷ es) i h =
    ground (arith, h, consumes-waits_for ds es i h, eq_iff e.tool_call_id i)

keep-agree :
    (p q : ApprovalDecision → Bool) (ds : List ApprovalDecision)
    → All (λ d. p d ≡ q d) ds
    → keep p ds ≡ keep q ds
keep-agree p q [] h = refl
keep-agree p q (d ∷ ds) (e, h) = ground (arith, e, keep-agree p q ds h)

remaining-agree :
    (ds : List ApprovalDecision) (es : List PendingToolCall) (xs : List ApprovalDecision)
    → All (λ x. is_decided ds x.tool_call_id ≡ true) xs
    → All
        (λ x.
          not (consumes x.tool_call_id (decide_entries ds es)) ≡ not (waits_for x.tool_call_id es))
        xs
remaining-agree ds es [] h = tt
remaining-agree ds es (x ∷ xs) (p, h) =
    (ap not (consumes-waits_for ds es x.tool_call_id p), remaining-agree ds es xs h)

-- What is left is what the agent does not wait for.
pub remaining-left :
    (s : AgentState) (ds : List ApprovalDecision)
    → remaining_decisions (decide_entries ds (fields s).pending_tool_calls) ds
      ≡ left_for_children s ds
unfolding remaining_decisions
remaining-left s ds =
    keep-agree _ _ ds (remaining-agree ds (fields s).pending_tool_calls ds (given_calls ds))

-- ===== src/State/Settling.antt =====
-- What `withApprovals` does to the entries, the history and the messages of one agent.
use mathlib.Core.Option
use mathlib.Core.Path.{subst}
use agentlayer.Prelude.{
  String, ◌≡◌, inl, inr, refl, ap, sym, Bool, true, false, not, none, some, List, [], ◌∷◌, ◌++◌,
  map, keep, All, Option-cases, append-nil, arith,
}
use agentlayer.Messages.{ModelMessage, Part, array_parts, result_id}
use agentlayer.State.{
  AgentState, agent_state, AgentPath, fields, Fields, get_agent_state, ApprovalDecision, approved,
  denied, PendingToolCall, approval, ApprovalHistoryEntry, decision_for, Decided, decide_entry,
  decide_entries, with_approvals,
}
use agentlayer.State.Approvals.{decisions_at, get_agent_state-with_approvals}

-- The entry waits for an approval, and the decisions have one for it.
abbrev pub is_settled : List ApprovalDecision → PendingToolCall → Bool
is_settled ds e = elim e.type [
  | approval req ↦ elim (decision_for ds e.tool_call_id) [ none ↦ false | some d ↦ true ]
  | _ ↦ false
]

abbrev pub is_denied : ApprovalHistoryEntry → Bool
is_denied h = elim h.decision.verdict [ approved ↦ false | denied reason ↦ true ]

-- The calls that tool messages answer.
abbrev pub result_ids_of : List Part → List String
result_ids_of [] = []
result_ids_of (p ∷ ps) = elim (result_id p.body) [
  | none ↦ result_ids_of ps
  | some i ↦ i ∷ result_ids_of ps
]

abbrev pub answered : List ModelMessage → List String
answered [] = []
answered (m ∷ ms) = result_ids_of (array_parts m) ++ answered ms

pub record IsApplied (ds : List ApprovalDecision) (f g : Fields) : Type 0 where
  pub pending : g.pending_tool_calls ≡ keep (λ e. not (is_settled ds e)) f.pending_tool_calls
  pub recorded : List ApprovalHistoryEntry
  pub history : g.approval_history ≡ f.approval_history ++ recorded
  pub calls :
      map (λ (h : ApprovalHistoryEntry). h.tool_call_id) recorded
      ≡ map (λ (e : PendingToolCall). e.tool_call_id) (keep (is_settled ds) f.pending_tool_calls)
  pub decided :
      All (λ (h : ApprovalHistoryEntry). decision_for ds h.tool_call_id ≡ some h.decision) recorded
  pub injected : List ModelMessage
  pub messages : g.messages ≡ f.messages ++ injected
  pub answers :
      answered injected
      ≡ map (λ (h : ApprovalHistoryEntry). h.tool_call_id) (keep is_denied recorded)
  pub tool_state : g.tool_state ≡ f.tool_state
  pub compaction : g.compaction ≡ f.compaction
  pub context_window_tokens : g.context_window_tokens ≡ f.context_window_tokens

record IsDecided (ds : List ApprovalDecision) (es : List PendingToolCall) (r : Decided)
    : Type 0 where
  pending : r.remaining_pending ≡ keep (λ e. not (is_settled ds e)) es
  calls :
      map (λ (h : ApprovalHistoryEntry). h.tool_call_id) r.new_history_entries
      ≡ map (λ (e : PendingToolCall). e.tool_call_id) (keep (is_settled ds) es)
  decided :
      All
        (λ (h : ApprovalHistoryEntry). decision_for ds h.tool_call_id ≡ some h.decision)
        r.new_history_entries
  answers :
      answered r.injected_messages
      ≡ map (λ (h : ApprovalHistoryEntry). h.tool_call_id) (keep is_denied r.new_history_entries)

decide_entry-IsDecided :
    (ds : List ApprovalDecision) (e : PendingToolCall) (es : List PendingToolCall) (r : Decided)
    → IsDecided ds es r
    → IsDecided ds (e ∷ es) (decide_entry ds e r)
unfolding decide_entry array_parts result_id
decide_entry-IsDecided ds e es r h = ground arith

decide_entries-IsDecided :
    (ds : List ApprovalDecision) (es : List PendingToolCall)
    → IsDecided ds es (decide_entries ds es)
unfolding decide_entries
decide_entries-IsDecided ds [] = record {
  pending = refl;
  calls = refl;
  decided = tt;
  answers = refl;
}
decide_entries-IsDecided ds (e ∷ es) =
    decide_entry-IsDecided ds e es (decide_entries ds es) (decide_entries-IsDecided ds es)

keep_all :
    (es : List PendingToolCall)
    → (keep (λ e. not (is_settled [] e)) es ≡ es) × (keep (is_settled []) es ≡ [])
unfolding decision_for
keep_all [] = (refl, refl)
keep_all (e ∷ es) = ground (arith, keep_all es)

-- `withApprovals` removes from the pending entries of the agent exactly the approvals that have a
-- decision, in order; records exactly these in the history, each with its decision; and appends
-- one answer for each of them that is denied. The other fields stay.
pub with_approvals-IsApplied :
    (s : AgentState) (ds : List ApprovalDecision)
    → IsApplied ds (fields s) (fields (with_approvals s ds))
unfolding with_approvals
with_approvals-IsApplied (agent_state f subs terms) [] = record {
  pending = sym (keep_all f.pending_tool_calls).0;
  recorded = [];
  history = sym (append-nil _);
  calls = rw (keep_all f.pending_tool_calls).1;
  decided = tt;
  injected = [];
  messages = sym (append-nil _);
  answers = refl;
  tool_state = refl;
  compaction = refl;
  context_window_tokens = refl;
}
with_approvals-IsApplied (agent_state f subs terms) (d ∷ ds) =
    let r = decide_entries (d ∷ ds) f.pending_tool_calls in
    let h = decide_entries-IsDecided (d ∷ ds) f.pending_tool_calls in
    record {
      pending = h.pending;
      recorded = r.new_history_entries;
      history = refl;
      calls = h.calls;
      decided = h.decided;
      injected = r.injected_messages;
      messages = refl;
      answers = h.answers;
      tool_state = refl;
      compaction = refl;
      context_window_tokens = refl;
    }

keep-unsettled :
    (ds : List ApprovalDecision) (es : List PendingToolCall)
    → All (λ e. is_settled ds e ≡ false) (keep (λ e. not (is_settled ds e)) es)
keep-unsettled ds [] = tt
keep-unsettled ds (e ∷ es) = ground (arith, keep-unsettled ds es)

-- After `withApprovals`, no agent of the tree keeps a pending approval for which the decisions
-- that reached it have a verdict.
pub with_approvals-settles :
    (s : AgentState) (ds : List ApprovalDecision) (path : AgentPath) (c : AgentState)
    → get_agent_state (with_approvals s ds) path ≡ some c
    → All (λ e. is_settled (decisions_at s ds path) e ≡ false) (fields c).pending_tool_calls
with_approvals-settles s ds path c h = elim (Option-cases (get_agent_state s path)) [
  | inl e ↦ absurd (cc (get_agent_state-with_approvals s ds path))
  | inr (b, e) ↦
      let left = decisions_at s ds path in
      let same : with_approvals b left ≡ c = cc (
        get_agent_state-with_approvals s ds path,
        ap (Option.map (λ a. with_approvals a left)) e,
      ) in
      let clear : All (λ a. is_settled left a ≡ false)
          (fields (with_approvals b left)).pending_tool_calls =
        rw (with_approvals-IsApplied b left).pending
          (keep-unsettled left (fields b).pending_tool_calls) in
      subst (λ t. All (λ a. is_settled left a ≡ false) (fields t).pending_tool_calls) same clear
]

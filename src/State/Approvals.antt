-- ===== src/State/Approvals.antt =====
-- Resuming with approval decisions (`withApprovals`): which entries they settle, and where in the
-- tree of agents.
use mathlib.Core.Option
use agentlayer.Prelude.{
  String, ◌≡◌, refl, ap, sym, Option, none, some, List, [], ◌∷◌, or_else-map, bind, arith,
  if◌then◌else◌,
}
use agentlayer.State.Left.{left_for_children, remaining-left}
use agentlayer.State.{
  AgentState, agent_state, AgentPath, Fields, SubAgents, no_agents, agent, TerminalChildMap,
  no_children, child, find_agent, find_child, child_state, get_agent_state, ApprovalDecision,
  decide_entries, decide_fields, remaining_decisions, is_empty, with_approvals,
  with_approvals_agents, with_approvals_children,
}

pub decisions_at : AgentState → List ApprovalDecision → AgentPath → List ApprovalDecision
decisions_at s ds [] = ds
decisions_at s ds (i ∷ path) = elim (child_state s i) [
  | none ↦ []
  | some c ↦ decisions_at c (left_for_children s ds) path
]

with_approvals_nil : (s : AgentState) → with_approvals s [] ≡ s
unfolding with_approvals
with_approvals_nil (agent_state f subs terms) = refl

find_agent-with_approvals :
    (i : String) (subs : SubAgents) (ds : List ApprovalDecision)
    → find_agent i (with_approvals_agents subs ds)
      ≡ Option.map (λ s. with_approvals s ds) (find_agent i subs)
unfolding find_agent with_approvals
find_agent-with_approvals i no_agents ds = refl
find_agent-with_approvals i (agent j s rest) ds =
    ground (arith, find_agent-with_approvals i rest ds)

find_child-with_approvals :
    (i : String) (terms : TerminalChildMap) (ds : List ApprovalDecision)
    → find_child i (with_approvals_children terms ds)
      ≡ Option.map (λ s. with_approvals s ds) (find_child i terms)
unfolding find_child with_approvals
find_child-with_approvals i no_children ds = refl
find_child-with_approvals i (child j s info rest) ds =
    ground (arith, find_child-with_approvals i rest ds)

map_nil : (o : Option AgentState) → Option.map (λ s. with_approvals s []) o ≡ o
map_nil none = refl
map_nil (some s) = ap some (with_approvals_nil s)

-- What each child becomes, for the decisions `left` to it.
child_state-given :
    (f g : Fields) (subs : SubAgents) (terms : TerminalChildMap) (left : List ApprovalDecision)
    (i : String)
    → child_state
        (agent_state g
          (if is_empty left then subs else with_approvals_agents subs left)
          (if is_empty left then terms else with_approvals_children terms left))
        i
      ≡ Option.map (λ s. with_approvals s left) (child_state (agent_state f subs terms) i)
unfolding child_state
child_state-given f g subs terms [] i = sym (map_nil _)
child_state-given f g subs terms (d ∷ left) i =
    rw (find_agent-with_approvals i subs (d ∷ left), find_child-with_approvals i terms (d ∷ left))
      (or_else-map (λ s. with_approvals s (d ∷ left)) (find_agent i subs) (find_child i terms))

child_state-with_approvals :
    (s : AgentState) (ds : List ApprovalDecision) (i : String)
    → child_state (with_approvals s ds) i
      ≡ Option.map (λ c. with_approvals c (left_for_children s ds)) (child_state s i)
unfolding with_approvals
child_state-with_approvals (agent_state f subs terms) [] i = sym (map_nil _)
child_state-with_approvals (agent_state f subs terms) (d ∷ ds) i =
    let r = decide_entries (d ∷ ds) f.pending_tool_calls in
    rw (sym (remaining-left (agent_state f subs terms) (d ∷ ds)))
      (child_state-given f (decide_fields r f) subs terms (remaining_decisions r (d ∷ ds)) i)

-- The agent found at a path after `withApprovals` is the agent found there before, with the
-- decisions applied that remain for it: those for calls that no agent above it on the path waits
-- to have approved.
pub get_agent_state-with_approvals :
    (s : AgentState) (ds : List ApprovalDecision) (path : AgentPath)
    → get_agent_state (with_approvals s ds) path
      ≡ Option.map (λ c. with_approvals c (decisions_at s ds path)) (get_agent_state s path)
unfolding get_agent_state decisions_at
get_agent_state-with_approvals s ds [] = refl
get_agent_state-with_approvals s ds (i ∷ path) =
    rw (child_state-with_approvals s ds i)
      (go (child_state s i) (λ c. get_agent_state-with_approvals c (left_for_children s ds) path))
  where
    go :
        (o : Option AgentState)
        → ((c : AgentState)
            → get_agent_state (with_approvals c (left_for_children s ds)) path
              ≡ Option.map
                  (λ b. with_approvals b (decisions_at c (left_for_children s ds) path))
                  (get_agent_state c path))
        → bind
            (Option.map (λ c. with_approvals c (left_for_children s ds)) o)
            (λ c. get_agent_state c path)
          ≡ Option.map
              (λ b.
                with_approvals b
                  (elim o [ none ↦ [] | some c ↦ decisions_at c (left_for_children s ds) path ]))
              (bind o (λ c. get_agent_state c path))
    go none h = refl
    go (some c) h = h c

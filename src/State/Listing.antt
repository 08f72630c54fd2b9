-- ===== src/State/Listing.antt =====
-- Listing the pending approvals of a tree of agents (`getAllPendingApprovals`).
use mathlib.Core.List.{Memᴰ}
use mathlib.Core.List.Memᴰ
use mathlib.Core.Path.{subst}
use agentlayer.Prelude.{
  String, ◌≡◌, inl, inr, refl, sym, some, List, [], ◌∷◌, ◌++◌, keep, append-nil, append_assoc,
  Bool-cases, Option-cases, eq_iff, ◌==◌, arith,
}
use agentlayer.State.{
  AgentState, agent_state, AgentPath, fields, SubAgents, no_agents, agent, TerminalChildMap,
  no_children, child, PendingToolCall, is_approval, find_agent, find_child, child_state,
  get_agent_state, collect, collect_agents, collect_children, get_all_pending_approvals,
  sanitize_state_for_persistence, sanitize_agents, sanitize_children,
}

abbrev Entry : Type 0
Entry = AgentPath × PendingToolCall

-- The approvals that an agent itself waits for.
abbrev pub own_approvals : AgentState → List PendingToolCall
own_approvals s = keep is_approval (fields s).pending_tool_calls

mutual
  unfolding collect sanitize_state_for_persistence

  collect-sanitize :
      (s : AgentState) (path : AgentPath)
      → collect (sanitize_state_for_persistence s) path ≡ collect s path
  collect-sanitize (agent_state f subs terms) path =
      rw (collect_agents-sanitize subs path, collect_children-sanitize terms path) refl

  collect_agents-sanitize :
      (subs : SubAgents) (path : AgentPath)
      → collect_agents (sanitize_agents subs) path ≡ collect_agents subs path
  collect_agents-sanitize no_agents path = refl
  collect_agents-sanitize (agent i s rest) path =
      rw (collect-sanitize s (path ++ i ∷ []), collect_agents-sanitize rest path) refl

  collect_children-sanitize :
      (terms : TerminalChildMap) (path : AgentPath)
      → collect_children (sanitize_children terms) path ≡ collect_children terms path
  collect_children-sanitize no_children path = refl
  collect_children-sanitize (child i s info rest) path =
      rw (collect-sanitize s (path ++ i ∷ []), collect_children-sanitize rest path) refl

-- A sanitized state lists the same pending approvals as the state, at the same paths.
pub get_all_pending_approvals-sanitize :
    (s : AgentState)
    → get_all_pending_approvals (sanitize_state_for_persistence s) ≡ get_all_pending_approvals s
unfolding get_all_pending_approvals
get_all_pending_approvals-sanitize s = collect-sanitize s []

module _ (x : Entry) (i : String) (t : AgentState) (path : AgentPath) where
  collect_agents-found :
      (subs : SubAgents)
      → find_agent i subs ≡ some t
      → Memᴰ x (collect t (path ++ i ∷ []))
      → Memᴰ x (collect_agents subs path)
  unfolding find_agent collect
  collect_agents-found no_agents h m = absurd (cc)
  collect_agents-found (agent j s rest) h m = elim (Bool-cases (j == i)) [
    | inl e ↦
        let same : s ≡ t = ground (arith, h, e) in
        let name : j ≡ i = (eq_iff j i).0 e in
        Memᴰ.append_left (collect_agents rest path) (rw (same, name) m)
    | inr n ↦
        Memᴰ.append_right (collect s (path ++ j ∷ []))
          (collect_agents-found rest (ground (arith, h, n)) m)
  ]

  collect_children-found :
      (terms : TerminalChildMap)
      → find_child i terms ≡ some t
      → Memᴰ x (collect t (path ++ i ∷ []))
      → Memᴰ x (collect_children terms path)
  unfolding find_child collect
  collect_children-found no_children h m = absurd (cc)
  collect_children-found (child j s info rest) h m = elim (Bool-cases (j == i)) [
    | inl e ↦
        let same : s ≡ t = ground (arith, h, e) in
        let name : j ≡ i = (eq_iff j i).0 e in
        Memᴰ.append_left (collect_children rest path) (rw (same, name) m)
    | inr n ↦
        Memᴰ.append_right (collect s (path ++ j ∷ []))
          (collect_children-found rest (ground (arith, h, n)) m)
  ]

  collect-child :
      (s : AgentState)
      → child_state s i ≡ some t
      → Memᴰ x (collect t (path ++ i ∷ []))
      → Memᴰ x (collect s path)
  unfolding child_state collect
  collect-child (agent_state f subs terms) h m =
      Memᴰ.append_right _ (elim (Option-cases (find_agent i subs)) [
        | inl e ↦
            Memᴰ.append_right (collect_agents subs path)
              (collect_children-found terms (ground (arith, h, e)) m)
        | inr (u, e) ↦
            Memᴰ.append_left (collect_children terms path)
              (collect_agents-found subs (ground (arith, h, e)) m)
      ])

collect-lists :
    (e : PendingToolCall) (path before : AgentPath) (s c : AgentState)
    → get_agent_state s path ≡ some c
    → Memᴰ e (own_approvals c)
    → Memᴰ (before ++ path, e) (collect s before)
unfolding get_agent_state collect
collect-lists e [] before (agent_state f subs terms) c h m =
    let same : c ≡ agent_state f subs terms = cc in
    let own : Memᴰ e (own_approvals (agent_state f subs terms)) =
      subst (λ a. Memᴰ e (own_approvals a)) same m in
    subst (λ p. Memᴰ (p, e) (collect (agent_state f subs terms) before)) (sym (append-nil before))
      (Memᴰ.append_left _ (Memᴰ.map (λ a. (before, a)) own))
collect-lists e (i ∷ path) before s c h m = elim (Option-cases (child_state s i)) [
  | inl n ↦ absurd (ground (arith, h, n))
  | inr (t, y) ↦
      collect-child (before ++ i ∷ path, e) i t before s y
        (subst (λ p. Memᴰ (p, e) (collect t (before ++ i ∷ []))) (append_assoc before (i ∷ []) path)
          (collect-lists e path (before ++ i ∷ []) t c (ground (arith, h, y)) m))
]

-- Each approval that an agent waits for is listed under each path at which the agent is found.
pub get_all_pending_approvals-lists :
    (s c : AgentState) (path : AgentPath) (e : PendingToolCall)
    → get_agent_state s path ≡ some c
    → Memᴰ e (own_approvals c)
    → Memᴰ (path, e) (get_all_pending_approvals s)
unfolding get_all_pending_approvals
get_all_pending_approvals-lists s c path e = collect-lists e path [] s c

-- ===== src/State/Fixed.antt =====
-- Persistence (`sanitizeStateForPersistence`): the states that it leaves as they are.
use mathlib.Core.Path.{subst}
use agentlayer.Prelude.{◌≡◌, refl, ap, ◌↔◌, List, [], ◌∷◌, map, All}
use agentlayer.Messages.{ModelMessage, Part, Content, plain, parts}
use agentlayer.State.{
  AgentState, agent_state, SubAgents, no_agents, agent, TerminalChildMap, no_children, child,
  sanitize_part, sanitize_content, sanitize_message, sanitize_state_for_persistence,
  sanitize_agents, sanitize_children,
}
use agentlayer.State.Sanitize.{
  IsCleanOptions, IsCleanContent, IsCleanMessage, strip_of_clean, sanitize_message-IsClean,
}

-- No message of the agent, of its sub-agents or of its terminal children, at any depth, has an option
-- to strip.
unfoldable mutual
  pub IsCleanState : AgentState → Type 0
  IsCleanState (agent_state f subs terms) =
      All IsCleanMessage f.messages × IsCleanAgents subs × IsCleanChildren terms

  pub IsCleanAgents : SubAgents → Type 0
  IsCleanAgents no_agents = Unit
  IsCleanAgents (agent i s rest) = IsCleanState s × IsCleanAgents rest

  pub IsCleanChildren : TerminalChildMap → Type 0
  IsCleanChildren no_children = Unit
  IsCleanChildren (child i s info rest) = IsCleanState s × IsCleanChildren rest

messages-AllClean : (ms : List ModelMessage) → All IsCleanMessage (map sanitize_message ms)
messages-AllClean [] = tt
messages-AllClean (m ∷ ms) = (sanitize_message-IsClean m, messages-AllClean ms)

mutual
  unfolding sanitize_state_for_persistence IsCleanState

  sanitize-IsCleanState : (s : AgentState) → IsCleanState (sanitize_state_for_persistence s)
  sanitize-IsCleanState (agent_state f subs terms) =
      (messages-AllClean f.messages, sanitize-IsCleanAgents subs, sanitize-IsCleanChildren terms)

  sanitize-IsCleanAgents : (subs : SubAgents) → IsCleanAgents (sanitize_agents subs)
  sanitize-IsCleanAgents no_agents = tt
  sanitize-IsCleanAgents (agent i s rest) = (sanitize-IsCleanState s, sanitize-IsCleanAgents rest)

  sanitize-IsCleanChildren : (terms : TerminalChildMap) → IsCleanChildren (sanitize_children terms)
  sanitize-IsCleanChildren no_children = tt
  sanitize-IsCleanChildren (child i s info rest) =
      (sanitize-IsCleanState s, sanitize-IsCleanChildren rest)

sanitize_part_of_clean : (p : Part) → IsCleanOptions p.provider_options → sanitize_part p ≡ p
unfolding sanitize_part
sanitize_part_of_clean p h = rw (strip_of_clean p.provider_options h) refl

sanitize_content_of_clean : (c : Content) → IsCleanContent c → sanitize_content c ≡ c
unfolding sanitize_content
sanitize_content_of_clean (plain s) h = refl
sanitize_content_of_clean (parts ps) h = ap parts (go ps h)
  where
    go : (qs : List Part) → IsCleanContent (parts qs) → map sanitize_part qs ≡ qs
    go [] h = refl
    go (q ∷ qs) (h, hs) = cc (sanitize_part_of_clean q h, go qs hs)

sanitize_message_of_clean : (m : ModelMessage) → IsCleanMessage m → sanitize_message m ≡ m
unfolding sanitize_message
sanitize_message_of_clean m (h, k) =
    rw (strip_of_clean m.provider_options h, sanitize_content_of_clean m.content k) refl

messages_of_clean : (ms : List ModelMessage) → All IsCleanMessage ms → map sanitize_message ms ≡ ms
messages_of_clean [] h = refl
messages_of_clean (m ∷ ms) (h, hs) = cc (sanitize_message_of_clean m h, messages_of_clean ms hs)

mutual
  unfolding sanitize_state_for_persistence IsCleanState

  sanitize_of_clean : (s : AgentState) → IsCleanState s → sanitize_state_for_persistence s ≡ s
  sanitize_of_clean (agent_state f subs terms) h =
      rw
        (
          messages_of_clean f.messages h.0,
          sanitize_agents_of_clean subs h.1,
          sanitize_children_of_clean terms h.2,
        )
        refl

  sanitize_agents_of_clean : (subs : SubAgents) → IsCleanAgents subs → sanitize_agents subs ≡ subs
  sanitize_agents_of_clean no_agents h = refl
  sanitize_agents_of_clean (agent i s rest) h =
      rw (sanitize_of_clean s h.0, sanitize_agents_of_clean rest h.1) refl

  sanitize_children_of_clean :
      (terms : TerminalChildMap) → IsCleanChildren terms → sanitize_children terms ≡ terms
  sanitize_children_of_clean no_children h = refl
  sanitize_children_of_clean (child i s info rest) h =
      rw (sanitize_of_clean s h.0, sanitize_children_of_clean rest h.1) refl

-- Sanitizing leaves a state as it is exactly when no message of the agent, of its sub-agents or of its
-- terminal children, at any depth, has an `itemId` or `phase` option, a provider without options, or
-- provider options without a provider, be it on the message or on a part of it.
pub sanitize_fixed_iff : (s : AgentState) → (sanitize_state_for_persistence s ≡ s) ↔ IsCleanState s
sanitize_fixed_iff s =
    ((λ h. subst IsCleanState h (sanitize-IsCleanState s)), (λ h. sanitize_of_clean s h))

-- ===== src/State/Sanitize.antt =====
-- Persistence (`sanitizeStateForPersistence`): what is stripped, what stays, and at which agents.
use mathlib.Core.Option
use mathlib.Core.Path.{subst}
use agentlayer.Prelude.{
  String, ◌≡◌, ◌≢◌, inl, inr, refl, ap, Bool, false, not, Option, none, some, List, [], ◌∷◌, map,
  keep, All, Option-cases, or_else-map, bind-map, arith, eq_iff, Bool-cases,
}
use agentlayer.Prelude.Json.{Json}
use agentlayer.Messages.{
  ModelMessage, Part, Content, plain, parts, ProviderOptions, ProviderValue, scalar, entries,
}
use agentlayer.State.{
  AgentState, agent_state, AgentPath, fields, SubAgents, no_agents, agent, TerminalChildMap,
  no_children, child, is_strip_key, strip_providers, strip_provider_options, sanitize_part,
  sanitize_content, sanitize_message, sanitize_state_for_persistence, sanitize_agents,
  sanitize_children, find_agent, find_child, child_state, get_agent_state,
}

-- A key that is no server-side identifier.
abbrev pub IsLasting : String × Json → Type 0
IsLasting e = (e.0 ≢ "itemId") × (e.0 ≢ "phase")

-- No key of a server-side identifier, and no provider without content.
abbrev pub IsCleanEntries : List (String × Json) → Type 0
IsCleanEntries es = (es ≢ []) × All IsLasting es

abbrev pub IsCleanValue : ProviderValue → Type 0
IsCleanValue (scalar v) = Unit
IsCleanValue (entries es) = IsCleanEntries es

abbrev pub IsCleanOptions : Option ProviderOptions → Type 0
IsCleanOptions none = Unit
IsCleanOptions (some opts) =
    (opts ≢ []) × All (λ (o : String × ProviderValue). IsCleanValue o.1) opts

abbrev pub IsCleanContent : Content → Type 0
IsCleanContent (plain s) = Unit
IsCleanContent (parts ps) = All (λ (p : Part). IsCleanOptions p.provider_options) ps

abbrev pub IsCleanMessage : ModelMessage → Type 0
IsCleanMessage m = IsCleanOptions m.provider_options × IsCleanContent m.content

abbrev unstripped : String × Json → Bool
unstripped e = not (is_strip_key e.0)

IsLasting-keep : (e : String × Json) → is_strip_key e.0 ≡ false → IsLasting e
unfolding is_strip_key
IsLasting-keep e h = ground (arith, h, eq_iff e.0 "itemId", eq_iff e.0 "phase")

keep-IsLasting : (e : String × Json) → IsLasting e → is_strip_key e.0 ≡ false
unfolding is_strip_key
keep-IsLasting e h = ground (arith, h, eq_iff e.0 "itemId", eq_iff e.0 "phase")

keep-unstripped : (es : List (String × Json)) → All IsLasting (keep unstripped es)
keep-unstripped [] = tt
keep-unstripped (e ∷ es) = elim (Bool-cases (is_strip_key e.0)) [
  | inl s ↦ rw (keep, s) (keep-unstripped es)
  | inr s ↦ rw (keep, s) (IsLasting-keep e s, keep-unstripped es)
]

keep_of_clean : (es : List (String × Json)) → All IsLasting es → keep unstripped es ≡ es
keep_of_clean [] h = refl
keep_of_clean (e ∷ es) (p, h) = ground (arith, keep-IsLasting e p, keep_of_clean es h)

abbrev AllClean : ProviderOptions → Type 0
AllClean opts = All (λ (o : String × ProviderValue). IsCleanValue o.1) opts

cons-ne-nil : (e : String × Json) (es : List (String × Json)) → e ∷ es ≢ []
cons-ne-nil e es h = cc

strip_providers-AllClean : (opts : ProviderOptions) → AllClean (strip_providers opts)
unfolding strip_providers
strip_providers-AllClean [] = tt
strip_providers-AllClean ((provider, scalar v) ∷ opts) = (tt, strip_providers-AllClean opts)
strip_providers-AllClean ((provider, entries es) ∷ opts) =
    go (keep unstripped es) (keep-unstripped es) (strip_providers-AllClean opts)
  where
    go :
        (kept : List (String × Json))
        → All IsLasting kept
        → AllClean (strip_providers opts)
        → AllClean (elim kept [
          | [] ↦ strip_providers opts
          | e ∷ es' ↦ (provider, entries (e ∷ es')) ∷ strip_providers opts
        ])
    go [] h ih = ih
    go (e ∷ kept) h ih = ((cons-ne-nil e kept, h), ih)

strip_providers_of_clean : (opts : ProviderOptions) → AllClean opts → strip_providers opts ≡ opts
unfolding strip_providers
strip_providers_of_clean [] h = refl
strip_providers_of_clean ((provider, scalar v) ∷ opts) (p, h) =
    ap (λ os. (provider, scalar v) ∷ os) (strip_providers_of_clean opts h)
strip_providers_of_clean ((provider, entries []) ∷ opts) ((p, q), h) = absurd (p refl)
strip_providers_of_clean ((provider, entries (e ∷ es)) ∷ opts) ((p, q), h) =
    ground (arith, keep_of_clean (e ∷ es) q, strip_providers_of_clean opts h)

pub strip-IsClean : (o : Option ProviderOptions) → IsCleanOptions (strip_provider_options o)
unfolding strip_provider_options
strip-IsClean none = tt
strip-IsClean (some opts) = go (strip_providers opts) (strip_providers-AllClean opts)
  where
    go :
        (os : ProviderOptions)
        → AllClean os
        → IsCleanOptions (elim os [ [] ↦ none | o ∷ os' ↦ some (o ∷ os') ])
    go [] h = tt
    go (o ∷ os) h = ((λ e. cc), h)

pub strip_of_clean : (o : Option ProviderOptions) → IsCleanOptions o → strip_provider_options o ≡ o
unfolding strip_provider_options
strip_of_clean none h = refl
strip_of_clean (some []) (p, h) = absurd (p refl)
strip_of_clean (some (o ∷ os)) (p, h) =
    rw (strip_providers_of_clean (o ∷ os) h, strip_provider_options)

sanitize_content-IsClean : (c : Content) → IsCleanContent (sanitize_content c)
unfolding sanitize_content
sanitize_content-IsClean (plain s) = tt
sanitize_content-IsClean (parts ps) = go ps
  where
    go : (qs : List Part) → IsCleanContent (parts (map sanitize_part qs))
    go [] = tt
    go (q ∷ qs) = (strip-IsClean q.provider_options, go qs)

pub sanitize_message-IsClean : (m : ModelMessage) → IsCleanMessage (sanitize_message m)
unfolding sanitize_message
sanitize_message-IsClean m = (strip-IsClean m.provider_options, sanitize_content-IsClean m.content)

find_agent-sanitize :
    (i : String) (subs : SubAgents)
    → find_agent i (sanitize_agents subs)
      ≡ Option.map sanitize_state_for_persistence (find_agent i subs)
unfolding find_agent sanitize_state_for_persistence
find_agent-sanitize i no_agents = refl
find_agent-sanitize i (agent j s rest) = ground (arith, find_agent-sanitize i rest)

find_child-sanitize :
    (i : String) (terms : TerminalChildMap)
    → find_child i (sanitize_children terms)
      ≡ Option.map sanitize_state_for_persistence (find_child i terms)
unfolding find_child sanitize_state_for_persistence
find_child-sanitize i no_children = refl
find_child-sanitize i (child j s info rest) = ground (arith, find_child-sanitize i rest)

child_state-sanitize :
    (s : AgentState) (i : String)
    → child_state (sanitize_state_for_persistence s) i
      ≡ Option.map sanitize_state_for_persistence (child_state s i)
unfolding child_state
child_state-sanitize (agent_state f subs terms) i =
    unfold sanitize_state_for_persistence in
    rw (find_agent-sanitize i subs, find_child-sanitize i terms)
      (or_else-map sanitize_state_for_persistence (find_agent i subs) (find_child i terms))

messages-IsClean :
    (s : AgentState) → All IsCleanMessage (fields (sanitize_state_for_persistence s)).messages
unfolding sanitize_state_for_persistence
messages-IsClean (agent_state f subs terms) = go f.messages
  where
    go : (ms : List ModelMessage) → All IsCleanMessage (map sanitize_message ms)
    go [] = tt
    go (m ∷ ms) = (sanitize_message-IsClean m, go ms)

-- An agent of the tree is found at a path of the sanitized state exactly when it is found there
-- before, and it is then the sanitized state of that agent.
pub get_agent_state-sanitize :
    (s : AgentState) (path : AgentPath)
    → get_agent_state (sanitize_state_for_persistence s) path
      ≡ Option.map sanitize_state_for_persistence (get_agent_state s path)
unfolding get_agent_state
get_agent_state-sanitize s [] = refl
get_agent_state-sanitize s (i ∷ path) = rw (child_state-sanitize s i) (
    bind-map sanitize_state_for_persistence (child_state s i) (λ c. get_agent_state c path)
      (λ c. get_agent_state c path) (λ c. get_agent_state-sanitize c path))

-- No message of any agent in the tree keeps an `itemId` or `phase` option, or a provider whose
-- options are all stripped, in a sanitized state.
pub sanitize-IsClean :
    (s : AgentState) (path : AgentPath) (c : AgentState)
    → get_agent_state (sanitize_state_for_persistence s) path ≡ some c
    → All IsCleanMessage (fields c).messages
sanitize-IsClean s path c h = elim (Option-cases (get_agent_state s path)) [
  | inl e ↦
      absurd
        (cc (get_agent_state-sanitize s path, ap (Option.map sanitize_state_for_persistence) e))
  | inr (b, e) ↦
      let same : sanitize_state_for_persistence b ≡ c =
        cc (get_agent_state-sanitize s path, ap (Option.map sanitize_state_for_persistence) e) in
      subst (λ t. All IsCleanMessage (fields t).messages) same (messages-IsClean b)
]

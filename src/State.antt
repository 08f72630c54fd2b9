-- ===== src/State.antt =====
-- packages/agentlayer-core/src/state.ts: the serializable state of an agent and its sub-agents.
-- An absent array or record (`pendingToolCalls`, `approvalHistory`, `subAgents`, `terminalChildren`)
-- and an empty one are both the empty list here: the functions treat them alike.
pub mod Sanitize
pub mod Fixed
pub mod Listing
pub mod Left
pub mod Approvals
pub mod Settling
mod Tests
use Prim.Native.String.{◌++◌ as str_append}
use agentlayer.Prelude.{
  ℕ, String, Bool, true, false, not, ◌||◌, Option, none, some, List, [], ◌∷◌, ◌++◌, map, ◌==◌,
  if◌then◌else◌, any, keep, bind, or_else,
}
use agentlayer.Prelude.Json.{Json, str}
use agentlayer.Messages.{
  ModelMessage, Part, Content, plain, parts, ProviderOptions, ProviderValue, scalar, entries,
  build_tool_result_message,
}

pub data Verdict : Type 0 where
  approved : Verdict
  denied : Option String → Verdict

pub record ApprovalDecision : Type 0 where
  pub tool_call_id : String
  pub verdict : Verdict

pub record ApprovalRequest : Type 0 where
  pub id : String
  pub tool_name : String
  pub tool_call_id : String
  pub input : Json
  pub metadata : Option Json
  pub message : Option String

-- The part of a pending call that its `type` decides: `suggestedResult` after the reason.
pub data PendingType : Type 0 where
  approval : ApprovalRequest → PendingType
  stopped : Option String → Option String → PendingType
  sub_agent : String → String → PendingType

pub record PendingToolCall : Type 0 where
  pub tool_call_id : String
  pub tool_name : String
  pub input : Json
  pub type : PendingType

pub record ApprovalHistoryEntry : Type 0 where
  pub tool_call_id : String
  pub tool_name : String
  pub input : Json
  pub approval : ApprovalRequest
  pub decision : ApprovalDecision

pub data CompactionTrigger : Type 0 where
  manual threshold overflow : CompactionTrigger

pub record CompactionCheckpoint : Type 0 where
  pub summary : String
  pub trigger : CompactionTrigger
  pub replaced_message_count : ℕ
  pub retained_message_count : ℕ
  pub total_replaced_message_count : ℕ
  pub prior_context_window_tokens : Option ℕ

pub data TerminalChildOutcome : Type 0 where
  complete error interrupted : TerminalChildOutcome

pub data TerminalChildRuntime : Type 0 where
  fork : TerminalChildRuntime
  specialist : String → TerminalChildRuntime

-- A terminal child record, but for its state.
pub record TerminalInfo : Type 0 where
  pub last_outcome : TerminalChildOutcome
  pub completed_turns : ℕ
  pub runtime : TerminalChildRuntime

-- The fields of an agent state that hold no other state.
pub record Fields : Type 0 where
  pub messages : List ModelMessage
  pub pending_tool_calls : List PendingToolCall
  pub approval_history : List ApprovalHistoryEntry
  pub tool_state : Option (List (String × Json))
  pub compaction : Option CompactionCheckpoint
  pub context_window_tokens : Option ℕ

mutual
  pub data AgentState : Type 0 where
    agent_state : Fields → SubAgents → TerminalChildMap → AgentState

  pub data SubAgents : Type 0 where
    no_agents : SubAgents
    agent : String → AgentState → SubAgents → SubAgents

  pub data TerminalChildMap : Type 0 where
    no_children : TerminalChildMap
    child : String → AgentState → TerminalInfo → TerminalChildMap → TerminalChildMap

abbrev pub AgentPath : Type 0
AgentPath = List String

abbrev pub fields : AgentState → Fields
fields (agent_state f subs terms) = f

unfoldable pub start_state : List ModelMessage → Option (List (String × Json)) → AgentState
start_state messages tool_state =
    agent_state
      (record {
        messages = messages;
        pending_tool_calls = [];
        approval_history = [];
        tool_state = tool_state;
        compaction = none;
        context_window_tokens = none;
      })
      no_agents no_children

-- PROVIDER_OPTIONS_STRIP_KEYS
unfoldable pub is_strip_key : String → Bool
is_strip_key key = key == "itemId" || key == "phase"

-- The loop over the providers: an object that has nothing left is dropped.
unfoldable pub strip_providers : ProviderOptions → ProviderOptions
unfolding is_strip_key
strip_providers [] = []
strip_providers ((provider, scalar v) ∷ opts) = (provider, scalar v) ∷ strip_providers opts
strip_providers ((provider, entries es) ∷ opts) =
    let rest = strip_providers opts in
    elim (keep (λ (e : String × Json). not (is_strip_key e.0)) es) [
      | [] ↦ rest
      | e ∷ es' ↦ (provider, entries (e ∷ es')) ∷ rest
    ]

unfoldable pub strip_provider_options : Option ProviderOptions → Option ProviderOptions
unfolding strip_providers
strip_provider_options none = none
strip_provider_options (some opts) = elim (strip_providers opts) [
  | [] ↦ none
  | o ∷ os ↦ some (o ∷ os)
]

unfoldable pub sanitize_part : Part → Part
unfolding strip_provider_options
sanitize_part p = record p { provider_options = strip_provider_options p.provider_options }

unfoldable pub sanitize_content : Content → Content
unfolding sanitize_part
sanitize_content (plain s) = plain s
sanitize_content (parts ps) = parts (map sanitize_part ps)

unfoldable pub sanitize_message : ModelMessage → ModelMessage
unfolding sanitize_content strip_provider_options
sanitize_message m = record m {
  content = sanitize_content m.content;
  provider_options = strip_provider_options m.provider_options;
}

unfoldable mutual
  unfolding sanitize_message

  pub sanitize_state_for_persistence : AgentState → AgentState
  sanitize_state_for_persistence (agent_state f subs terms) =
      agent_state (record f { messages = map sanitize_message f.messages }) (sanitize_agents subs)
        (sanitize_children terms)

  pub sanitize_agents : SubAgents → SubAgents
  sanitize_agents no_agents = no_agents
  sanitize_agents (agent agent_id s rest) =
      agent agent_id (sanitize_state_for_persistence s) (sanitize_agents rest)

  pub sanitize_children : TerminalChildMap → TerminalChildMap
  sanitize_children no_children = no_children
  sanitize_children (child agent_id s info rest) =
      child agent_id (sanitize_state_for_persistence s) info (sanitize_children rest)

-- state.subAgents?.[id]
unfoldable pub find_agent : String → SubAgents → Option AgentState
find_agent agent_id no_agents = none
find_agent agent_id (agent i s rest) = if i == agent_id then some s else find_agent agent_id rest

unfoldable pub find_child : String → TerminalChildMap → Option AgentState
find_child agent_id no_children = none
find_child agent_id (child i s info rest) =
    if i == agent_id then some s else find_child agent_id rest

unfoldable pub child_state : AgentState → String → Option AgentState
unfolding find_agent find_child
child_state (agent_state f subs terms) agent_id =
    or_else (find_agent agent_id subs) (find_child agent_id terms)

unfoldable pub get_agent_state : AgentState → AgentPath → Option AgentState
get_agent_state s [] = some s
get_agent_state s (head ∷ rest) = bind (child_state s head) (λ c. get_agent_state c rest)

unfoldable pub is_approval : PendingToolCall → Bool
is_approval e = elim e.type [ approval req ↦ true | _ ↦ false ]

unfoldable mutual
  unfolding is_approval

  pub collect : AgentState → AgentPath → List (AgentPath × PendingToolCall)
  collect (agent_state f subs terms) path =
      map (λ (e : PendingToolCall). (path, e)) (keep is_approval f.pending_tool_calls)
      ++ (collect_agents subs path ++ collect_children terms path)

  pub collect_agents : SubAgents → AgentPath → List (AgentPath × PendingToolCall)
  collect_agents no_agents path = []
  collect_agents (agent agent_id s rest) path =
      collect s (path ++ agent_id ∷ []) ++ collect_agents rest path

  pub collect_children : TerminalChildMap → AgentPath → List (AgentPath × PendingToolCall)
  collect_children no_children path = []
  collect_children (child agent_id s info rest) path =
      collect s (path ++ agent_id ∷ []) ++ collect_children rest path

unfoldable pub get_all_pending_approvals : AgentState → List (AgentPath × PendingToolCall)
unfolding collect
get_all_pending_approvals s = collect s []

-- `new Map(...)`: of two decisions for one call the later counts.
unfoldable pub decision_for : List ApprovalDecision → String → Option ApprovalDecision
decision_for [] i = none
decision_for (d ∷ ds) i = or_else (decision_for ds i) (if d.tool_call_id == i then some d else none)

unfoldable pub denial_message : Option String → String
denial_message none = "The user denied this tool call."
denial_message (some reason) =
    str_append "The user denied this tool call with the following message: " reason

unfoldable pub denials : PendingToolCall → ApprovalDecision → List ModelMessage
unfolding denial_message build_tool_result_message
denials e d = elim d.verdict [
  | approved ↦ []
  | denied reason ↦
      build_tool_result_message e.tool_call_id e.tool_name (str (denial_message reason)) false ∷ []
]

pub record Decided : Type 0 where
  pub remaining_pending : List PendingToolCall
  pub new_history_entries : List ApprovalHistoryEntry
  pub injected_messages : List ModelMessage
  pub consumed_tool_call_ids : List String

abbrev nothing_decided : Decided
nothing_decided = record {
  remaining_pending = [];
  new_history_entries = [];
  injected_messages = [];
  consumed_tool_call_ids = [];
}

unfoldable pub leave_pending : PendingToolCall → Decided → Decided
leave_pending e r = record r { remaining_pending = e ∷ r.remaining_pending }

unfoldable pub consume : PendingToolCall → ApprovalRequest → ApprovalDecision → Decided → Decided
unfolding denials
consume e req d r = record r {
  new_history_entries =
      record {
        tool_call_id = e.tool_call_id;
        tool_name = e.tool_name;
        input = e.input;
        approval = req;
        decision = d;
      }
      ∷ r.new_history_entries;
  injected_messages = denials e d ++ r.injected_messages;
  consumed_tool_call_ids = e.tool_call_id ∷ r.consumed_tool_call_ids;
}

-- One round of the loop over the pending entries, before what the later rounds push.
unfoldable pub decide_entry : List ApprovalDecision → PendingToolCall → Decided → Decided
unfolding decision_for leave_pending consume
decide_entry ds e r = elim e.type [
  | stopped reason result ↦ leave_pending e r
  | sub_agent agent_id type ↦ leave_pending e r
  | approval req ↦ elim (decision_for ds e.tool_call_id) [
    | none ↦ leave_pending e r
    | some d ↦ consume e req d r
  ]
]

unfoldable pub decide_entries : List ApprovalDecision → List PendingToolCall → Decided
unfolding decide_entry
decide_entries ds [] = nothing_decided
decide_entries ds (e ∷ es) = decide_entry ds e (decide_entries ds es)

unfoldable pub decide_fields : Decided → Fields → Fields
decide_fields r f = record f {
  messages = f.messages ++ r.injected_messages;
  pending_tool_calls = r.remaining_pending;
  approval_history = f.approval_history ++ r.new_history_entries;
}

-- The decisions that the entries at this level did not consume.
unfoldable pub remaining_decisions : Decided → List ApprovalDecision → List ApprovalDecision
remaining_decisions r ds =
    keep (λ d. not (any (λ i. i == d.tool_call_id) r.consumed_tool_call_ids)) ds

abbrev pub is_empty {ℓ} : {A : Type ℓ} → List A → Bool
is_empty [] = true
is_empty (x ∷ xs) = false

unfoldable mutual
  unfolding decide_entries decide_fields remaining_decisions

  pub with_approvals : AgentState → List ApprovalDecision → AgentState
  with_approvals (agent_state f subs terms) ds =
      let r = decide_entries ds f.pending_tool_calls in
      let left = remaining_decisions r ds in
      let subs' = with_approvals_agents subs left in
      let terms' = with_approvals_children terms left in
      if is_empty ds
      then agent_state f subs terms
      else agent_state (decide_fields r f) (if is_empty left then subs else subs')
          (if is_empty left then terms else terms')

  pub with_approvals_agents : SubAgents → List ApprovalDecision → SubAgents
  with_approvals_agents no_agents ds = no_agents
  with_approvals_agents (agent agent_id s rest) ds =
      agent agent_id (with_approvals s ds) (with_approvals_agents rest ds)

  pub with_approvals_children : TerminalChildMap → List ApprovalDecision → TerminalChildMap
  with_approvals_children no_children ds = no_children
  with_approvals_children (child agent_id s info rest) ds =
      child agent_id (with_approvals s ds) info (with_approvals_children rest ds)

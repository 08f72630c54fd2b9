-- ===== src/Loop.antt =====
-- packages/agentlayer-core/src/agent.ts: the outcomes of the tool calls of one step, the message
-- sink, and the updates that outcomes bring. A callback, an event and the token accounting only
-- observe a run, and are left out.
pub mod Phases
pub mod Partition
pub mod Resolved
mod Tests
use Prim.Native.String.{◌++◌ as str_append}
use agentlayer.Prelude.{
  ℕ, String, Bool, true, false, Option, none, some, List, [], ◌∷◌, ◌++◌, map, ◌==◌, if◌then◌else◌,
  length, drop, bind,
}
use agentlayer.Prelude.Records.{lookup, insert}
use agentlayer.Prelude.Json.{Json, str, obj, Fields, field, end, stringify}
use agentlayer.Messages.{
  ModelMessage, Part, PartBody, tool_call, tool_result, assistant, tool, plain, parts,
}
use agentlayer.State.{AgentState, ApprovalRequest}
use agentlayer.Stop.{StepToolResult}

pub record StopOptions : Type 0 where
  pub include : Option Bool
  pub output : Option Json
  pub drop_parallel : Option Bool
  pub reason : Option String

pub record HookStateOperation : Type 0 where
  pub key : String
  pub apply : Option Json → Json

pub record Call : Type 0 where
  pub tool_call_id : String
  pub tool_name : String
  pub input : Json

-- What an outcome of kind `executed` holds beside its call.
pub record Execution : Type 0 where
  pub mutated_input : Option Json
  pub update_context_window : Bool
  pub notify_model : Bool
  pub message : ModelMessage
  pub output : Json
  pub is_error : Bool
  pub pending_updates : List (List ModelMessage → List ModelMessage)
  pub stop_requested : Option StopOptions
  pub tool_state_update : Option (String × Json)
  pub hook_state_update : List HookStateOperation
  pub sub_agent_pause : Option (String × AgentState)

pub data ToolOutcome : Type 0 where
  executed : Call → Execution → ToolOutcome
  denied : Call → ModelMessage → Json → ToolOutcome
  answered : Call → ModelMessage → Json → Bool → List HookStateOperation → ToolOutcome
  ask : Call → ApprovalRequest → ToolOutcome
  hook_stop : Call → StopOptions → List HookStateOperation → ToolOutcome

abbrev pub call_of : ToolOutcome → Call
call_of (executed c x) = c
call_of (denied c m o) = c
call_of (answered c m o e ops) = c
call_of (ask c req) = c
call_of (hook_stop c opts ops) = c

-- MessageSink: the three arrays that it pushes to.
pub record MessageSink : Type 0 where
  pub all_messages : List ModelMessage
  pub new_messages : List ModelMessage
  pub run_messages : List ModelMessage

unfoldable pub append : ModelMessage → MessageSink → MessageSink
append msg s = record {
  all_messages = s.all_messages ++ msg ∷ [];
  new_messages = s.new_messages ++ msg ∷ [];
  run_messages = s.run_messages ++ msg ∷ [];
}

unfoldable pub drain : List (List ModelMessage → List ModelMessage) → MessageSink → MessageSink
drain [] s = s
drain (cb ∷ cbs) s =
    let updated = cb s.all_messages in
    let fresh = drop (length s.all_messages) updated in
    drain cbs (record {
      all_messages = updated;
      new_messages = s.new_messages ++ fresh;
      run_messages = s.run_messages ++ fresh;
    })

abbrev pub ToolState : Type 0
ToolState = List (String × Json)

unfoldable pub apply_operations : List HookStateOperation → ToolState → ToolState
apply_operations [] st = st
apply_operations (op ∷ ops) st =
    apply_operations ops (insert op.key (op.apply (lookup op.key st)) st)

unfoldable pub hook_state_updates : ToolOutcome → List HookStateOperation
hook_state_updates (executed c x) = x.hook_state_update
hook_state_updates (answered c m o e ops) = ops
hook_state_updates (hook_stop c opts ops) = ops
hook_state_updates (denied c m o) = []
hook_state_updates (ask c req) = []

unfoldable pub merge_hook_state_updates : List ToolOutcome → ToolState → ToolState
unfolding apply_operations hook_state_updates
merge_hook_state_updates [] st = st
merge_hook_state_updates (o ∷ os) st =
    merge_hook_state_updates os (apply_operations (hook_state_updates o) st)

unfoldable pub merge_tool_state_update : ToolOutcome → ToolState → ToolState
merge_tool_state_update (executed c x) st = elim x.tool_state_update [
  | none ↦ st
  | some (key, value) ↦ insert key value st
]
merge_tool_state_update _ st = st

unfoldable pub merge_tool_state_updates : List ToolOutcome → ToolState → ToolState
unfolding merge_tool_state_update
merge_tool_state_updates [] st = st
merge_tool_state_updates (o ∷ os) st = merge_tool_state_updates os (merge_tool_state_update o st)

-- mutationsToApply.find(...): the new input for a call of the context window.
unfoldable pub find_mutation : String → List ToolOutcome → Option Json
find_mutation i [] = none
find_mutation i (executed c x ∷ os) =
    let rest = find_mutation i os in
    if x.update_context_window
    then (elim x.mutated_input [
      | none ↦ rest
      | some new ↦ if c.tool_call_id == i then some new else rest
    ])
    else rest
find_mutation i (_ ∷ os) = find_mutation i os

unfoldable pub patch_body : List ToolOutcome → PartBody → PartBody
unfolding find_mutation
patch_body os (tool_call i n x) = elim (find_mutation i os) [
  | none ↦ tool_call i n x
  | some new ↦ tool_call i n new
]
patch_body os b = b

abbrev pub set_body : (PartBody → PartBody) → Part → Part
set_body f p = record p { body = f p.body }

-- The last assistant message with array content is patched; `none` where there is none.
unfoldable pub patch_message : List ToolOutcome → ModelMessage → Option ModelMessage
unfolding patch_body
patch_message os m = elim m.role [
  | assistant ↦ elim m.content [
    | plain s ↦ none
    | parts ps ↦ some (record m { content = parts (map (set_body (patch_body os)) ps) })
  ]
  | _ ↦ none
]

unfoldable pub patch_last : List ToolOutcome → List ModelMessage → Option (List ModelMessage)
unfolding patch_message
patch_last os [] = none
patch_last os (m ∷ ms) = elim (patch_last os ms) [
  | some ms' ↦ some (m ∷ ms')
  | none ↦ bind (patch_message os m) (λ m'. some (m' ∷ ms))
]

infixr 65 ◌&◌
abbrev ◌&◌ : String → String → String
a & b = str_append a b

unfoldable pub notification : Json → Json → String
notification input mutated =
    "<system_information>Your inputs to this tool call were modified by a PreToolUse Hook. You specified "
    & stringify input
    & " but they were modified to be "
    & stringify mutated
    & "</system_information>\n"

-- `currentOutput.type === 'text'`, and the new `value`.
unfoldable pub has_text_type : Fields → Bool
has_text_type end = false
has_text_type (field k v fs) = elim v [
  | str t ↦ if k == "type" then t == "text" else has_text_type fs
  | _ ↦ has_text_type fs
]

unfoldable pub prepend_value : String → Fields → Fields
prepend_value note end = end
prepend_value note (field k (str t) fs) =
    if k == "value" then field k (str (note & t)) fs else field k (str t) (prepend_value note fs)
prepend_value note (field k v fs) = field k v (prepend_value note fs)

unfoldable pub notify_output : String → Json → Json
unfolding has_text_type prepend_value
notify_output note (str s) = str (note & s)
notify_output note (obj fs) = if has_text_type fs then obj (prepend_value note fs) else obj fs
notify_output note v = v

unfoldable pub notify_body : String → String → PartBody → PartBody
unfolding notify_output
notify_body call_id note (tool_result i n out e) =
    if i == call_id then tool_result i n (notify_output note out) e else tool_result i n out e
notify_body call_id note b = b

unfoldable pub notify_message : String → String → ModelMessage → ModelMessage
unfolding notify_body
notify_message call_id note m = elim m.role [
  | tool ↦ elim m.content [
    | plain s ↦ m
    | parts ps ↦ record m { content = parts (map (set_body (notify_body call_id note)) ps) }
  ]
  | _ ↦ m
]

unfoldable pub notify_outcome : ToolOutcome → ToolOutcome
unfolding notification notify_message
notify_outcome (executed c x) =
    if x.notify_model
    then (elim x.mutated_input [
      | none ↦ executed c x
      | some new ↦ executed c (record x {
        message = notify_message c.tool_call_id (notification c.input new) x.message;
      })
    ])
    else executed c x
notify_outcome o = o

-- The messages and the outcomes after the mutations.
unfoldable pub apply_hook_mutation_effects :
    List ModelMessage → List ToolOutcome → List ModelMessage × List ToolOutcome
unfolding patch_last notify_outcome
apply_hook_mutation_effects ms os =
    ((elim (patch_last os ms) [ none ↦ ms | some ms' ↦ ms' ]), map notify_outcome os)

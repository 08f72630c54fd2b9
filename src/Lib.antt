-- ===== src/Lib.antt =====
-- The core of AgentLayer, a TypeScript library that runs language-model agents with tools.
--
-- An agent (packages/agentlayer-core/src/agent.ts) runs in steps. In each step the model is called,
-- its tool calls are resolved to outcomes (run, denied, answered by a hook, waiting for approval, or
-- stopping the run), and the outcomes are routed to the messages, the step's results and the calls
-- that stay pending. Stop conditions read the steps and may end the run. The state of a run, with
-- the states of its sub-agents, is persisted, and a run is resumed with decisions on its pending
-- approvals. A conversation that fills the context window is compacted: its older part gives way to
-- a summary. The file-state hooks of the filesystem tools keep their maps in the state's tool state.
--
-- Prelude             shared names and helpers: Boolean tests, lists measured by native numbers,
--                     options, records with text keys, JSON and its text, decimals
-- Messages            agentlayer-core/src/messages.ts and sanitize-text.ts: `ModelMessage`,
--                     `buildToolResultMessage`, `sanitizeValue`
-- Stop                agentlayer-core/src/stop-conditions.ts: each condition and `shouldStop`
--   Stop.Counting     the failure counters; Stop.Conditions: the order of conditions, `doomLoop`
-- State               agentlayer-core/src/state.ts and hooks/shared.ts: `AgentState` as a tree of
--                     fields, sub-agents and terminal children; `sanitizeStateForPersistence`,
--                     `getAgentState`, `getAllPendingApprovals`, `withApprovals`
--   State.Sanitize, State.Fixed: proofs on persistence; State.Listing: on pending approvals;
--                     State.Left, State.Approvals, State.Settling: on decisions
-- Loop                agentlayer-core/src/agent.ts: `ToolOutcome`, `MessageSink`, the merges of
--                     updates, `applyHookMutationEffects`
--   Loop.Phases       `route_outcomes`, the part of `executeLoop` that routes the outcomes of a step:
--                     the branch for approvals, the branch for stops, the normal path
--   Loop.Partition, Loop.Resolved      counting results and pending calls over these branches
-- Hooks               agentlayer-core/src/hooks: the approval, preToolUse and postToolUse chains;
--                     Hooks.Replay: proofs on the state updates that they record;
--                     Hooks.PreRequest: the chain before a request to the model, and its use
-- Execute             agentlayer-core/src/execute-tool-call.ts: `executeToolCall`;
--   Execute.Resolve   agent.ts: `resolveToolCall`, `executeWithPostHooks`; Execute.Answers: proofs
-- Dangling            agent.ts: `executeDanglingToolCalls`, the start of a resumed run
--   Dangling.Growing, Dangling.Handled, Dangling.Resumed, Dangling.Parks,
--   Dangling.Stopped                                 proofs on it
-- Turn                agent.ts: a step of `executeLoop` from the model's response on, composed of
--                     Execute.Resolve, Loop and Loop.Phases, with the stop conditions of Stop
--   Turn.Answered, Turn.Settled, Turn.Completed,
--   Turn.Progressing                                 proofs on the results of its calls
-- Compaction          agentlayer-core/src/compaction/engine.ts: the cut and the plan;
--   Compaction.Policy compaction/policy.ts: token budgets; Compaction.Cut: proofs on cuts and plans
-- FileState           agentlayer-filesystem/src/hooks/file-state.ts and utils/expand-path.ts: the
--                     hooks before a read and before a write
--   FileState.Ranges  the ranges of lines that were read; FileState.Actions: the tracking hook
--   FileState.Guarantees, FileState.Writes, FileState.Consistent,
--   FileState.Repeats                                proofs on the hooks
-- Usage               agentlayer-core/src/token-usage.ts: `TokenUsageAccumulator` and the costing
--   Usage.Reconciled, Usage.Totals      proofs on the published counts
-- Pending             agentlayer-core/src/pending.ts: `getPendingToolCalls`; Pending.Answers and
--                     Pending.Listed: its proofs
-- Patch               agentlayer-core/src/utils/patch-parser.ts: `parse_patch`; Patch.Heredoc:
--                     `stripHeredoc`; Patch.Seek: `seekSequence`; Patch.Apply: `applyUpdateChunks`
--                     and `validateHunks`
--   Patch.Printer     the format, written; Patch.Lines, Patch.Loops, Patch.Written, Patch.RoundTrip:
--                     proofs that it is read back; Patch.Total: the loops end
--   Patch.Located, Patch.Placed, Patch.Splice, Patch.Validated      proofs on seeking and applying
--
-- (The paths above continue `packages/`.) Each Tests module holds runs and the results below at
-- concrete inputs.
--
-- State is passed explicitly: a phase of a step takes the progress (sink, results, sub-agents, tool
-- state) and returns the next, or the end of the run with the pending calls. What the code awaits
-- from outside is an environment: whether an approval is settled in flight, its decision and the
-- outcome of the second run (Loop.Phases), the hash function, the home and working directories, path
-- resolution and the parsed patch (FileState). A callback on the messages is a function on them.
-- Loops over arrays are structural recursion. Two loops of `parsePatch` recur on fuel, the number of
-- lines that are left, which each round makes smaller (Patch.Total). Numbers are natural numbers: counts, indices, tokens and line numbers, which the code keeps non-negative.
--
-- A hook and a tool are programs: they read and update the state and return a result, and the chain
-- or executeToolCall runs them. An input object carries an identity where the code compares objects.
-- The calls of a step run side by side in the code and are resolved here in order from the state
-- before them all. JSON.parse and the reading of a file are parameters, `none` where they throw.
--
-- Not modelled: the loop around the steps with the model call, the compaction run,
-- sub-agent runs and terminal children in the tool context (packages/agentlayer-core/src), the
-- Yjs filesystem, the shell tools and the model providers. Events, callbacks, token accounting and
-- terminal output only observe a run. Errors that a hook throws end the run in the code and have no
-- counterpart here; those of executeToolCall and JSON.parse are values.
pub mod Prelude
pub mod Messages
pub mod Stop
pub mod State
pub mod Loop
pub mod Compaction
pub mod FileState
pub mod Usage
pub mod Pending
pub mod Patch
pub mod Hooks
pub mod Execute
pub mod Dangling
pub mod Turn

-- ===== src/Hooks/Replay.antt =====
-- The updates that a chain of packages/agentlayer-core/src/hooks records, against the state that its
-- hooks saw.
use agentlayer.Prelude.{some, List, [], ◌∷◌, ◌++◌, ◌≡◌, refl, ◌∙◌, inl, inr, arith, Option-cases}
use agentlayer.Prelude.Json.{Json}
use agentlayer.Loop.{HookStateOperation, ToolState, apply_operations}
use agentlayer.Hooks.{
  HookCall, HookProgram, returns, get_state, update_state, HookRun, run_program, PreToolUseResult,
  next_chain, first_chain, PreToolUseHook, PreChain, pre_loop, run_pre_tool_use_hooks, PostCall,
  PostToolUseHook, post_loop, run_post_tool_use_hooks,
}

pub apply_operations-append :
    (ops more : List HookStateOperation) (st : ToolState)
    → apply_operations (ops ++ more) st ≡ apply_operations more (apply_operations ops st)
unfolding apply_operations
apply_operations-append [] more st = refl
apply_operations-append (op ∷ ops) more st = apply_operations-append ops more _

-- The updates lead from the base state to the local state.
abbrev pub IsReplay : {R : Type 0} → ToolState → HookRun R → Type 0
IsReplay base r = apply_operations r.state_updates base ≡ r.local_state

run_program-IsReplay :
    {R : Type 0} (base : ToolState) (p : HookProgram R) (st : ToolState)
    (ops : List HookStateOperation)
    → apply_operations ops base ≡ st
    → IsReplay base (run_program p st ops)
unfolding run_program apply_operations
run_program-IsReplay base (returns r) st ops h = h
run_program-IsReplay base (get_state key k) st ops h = run_program-IsReplay base (k _) st ops h
run_program-IsReplay base (update_state key updater k) st ops h =
    run_program-IsReplay base k _ _
      (apply_operations-append ops _ base ∙ rw (h, apply_operations) refl)

-- A chain whose variables are a replay, and stay one.
abbrev IsReplayed : ToolState → PreChain → Type 0
IsReplayed base s = apply_operations s.updates base ≡ s.state

next_chain-IsReplayed :
    (base : ToolState) (s s' : PreChain) (r : HookRun PreToolUseResult)
    → IsReplay base r
    → next_chain s r ≡ some s'
    → IsReplayed base s'
unfolding next_chain
next_chain-IsReplayed base s s' r h e = ground (arith, h, e)

pre_loop-IsReplay :
    (base : ToolState) (hs : List PreToolUseHook) (c : HookCall) (s : PreChain)
    → IsReplayed base s
    → IsReplay base (pre_loop hs c s)
unfolding pre_loop
pre_loop-IsReplay base [] c s h = h
pre_loop-IsReplay base (hook ∷ hs) c s h =
    let p = hook (record c { input = s.current_input }) in
    let r = run_program-IsReplay base p s.state s.updates h in
    elim (Option-cases (next_chain s (run_program p s.state s.updates))) [
      | inl e ↦ rw (e, pre_loop) r
      | inr (s', e) ↦
          rw (e, pre_loop) (pre_loop-IsReplay base hs c s' (next_chain-IsReplayed base s s' _ r e))
    ]

post_loop-IsReplay :
    (base : ToolState) (hs : List PostToolUseHook) (c : PostCall) (current : Json) (st : ToolState)
    (ops : List HookStateOperation)
    → apply_operations ops base ≡ st
    → IsReplay base (post_loop hs c current st ops)
unfolding post_loop
post_loop-IsReplay base [] c current st ops h = h
post_loop-IsReplay base (hook ∷ hs) c current st ops h =
    let r = run_program-IsReplay base (hook (record c { output = current })) st ops h in
    post_loop-IsReplay base hs c _ _ _ r

pub run_pre_tool_use_hooks-IsReplay :
    (hs : List PreToolUseHook) (c : HookCall) (base : ToolState)
    → IsReplay base (run_pre_tool_use_hooks hs c base)
unfolding run_pre_tool_use_hooks apply_operations
run_pre_tool_use_hooks-IsReplay hs c base = pre_loop-IsReplay base hs c (first_chain c base) refl

pub run_post_tool_use_hooks-IsReplay :
    (hs : List PostToolUseHook) (c : PostCall) (base : ToolState)
    → IsReplay base (run_post_tool_use_hooks hs c base)
unfolding run_post_tool_use_hooks apply_operations
run_post_tool_use_hooks-IsReplay hs c base = post_loop-IsReplay base hs c _ base [] refl

-- The updates that the hooks before a call record lead from the tool state to the state that the last
-- of them left; and these updates with those of the hooks after the call, which start from the tool
-- state with the first updates applied, lead to the state that the last hook after the call left.
pub run_pre_tool_use_hooks-run_post_tool_use_hooks :
    (before : List PreToolUseHook) (after : List PostToolUseHook) (c : HookCall) (d : PostCall)
    (base : ToolState)
    → let r = run_pre_tool_use_hooks before c base in
      let q = run_post_tool_use_hooks after d (apply_operations r.state_updates base) in
      (apply_operations r.state_updates base ≡ r.local_state)
      × (apply_operations (r.state_updates ++ q.state_updates) base ≡ q.local_state)
run_pre_tool_use_hooks-run_post_tool_use_hooks before after c d base =
    let r = run_pre_tool_use_hooks before c base in
    let visible = apply_operations r.state_updates base in
    (
      run_pre_tool_use_hooks-IsReplay before c base,
      apply_operations-append r.state_updates
            ((run_post_tool_use_hooks after d visible).state_updates) base
          ∙ run_post_tool_use_hooks-IsReplay after d visible,
    )

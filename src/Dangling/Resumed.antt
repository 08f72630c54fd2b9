-- ===== src/Dangling/Resumed.antt =====
-- A resumed run of packages/agentlayer-core/src/agent.ts answers each call that has no result, or
-- leaves it pending.
use agentlayer.Prelude.{some, List, [], ◌∷◌, ◌≡◌, refl, ◌⊎◌, inl, inr, All, All-map}
use agentlayer.Messages.{ModelMessage, array_parts}
use agentlayer.State.{PendingToolCall}
use agentlayer.Loop.{Call, append, drain}
use agentlayer.Loop.Phases.{Progress, StepEnd, finished, go_on, stop_condition}
use agentlayer.Execute.{ResolveError, ToolCallResult, execute_tool_call}
use agentlayer.Execute.Resolve.{Agent}
use agentlayer.Execute.Answers.{Ensures, IsAnswer, execute_tool_call-IsAnswer}
use agentlayer.Dangling.{
  last_assistant, tool_call_parts, without_result, state_entry, context_of, Handling, continue,
  ended, handle_call, handle_calls, execute_all, DanglingError, end_executed, end_remaining,
  end_handled, execute_unresolved, without_calls, execute_dangling_tool_calls,
}
use agentlayer.Dangling.Growing.{
  Grows, Grows-refl, Grows-trans, IsAnswered, IsHandled, IsHandled-Grows, Handles, drain-Grows,
  answered-Handles,
}
use agentlayer.Dangling.Handled.{IsStop, Keeps, IsResumable, handle_call-Keeps}

-- All calls are handled between two points of the loop.
record HandleAll (cs : List Call) (remaining remaining' : List PendingToolCall) (p p' : Progress)
    : Type 0 where
  entries : Grows remaining remaining'
  messages : Grows p.sink.new_messages p'.sink.new_messages
  handled : All (IsHandled remaining' p') cs

abbrev KeepAll : List Call → List PendingToolCall → Progress → Handling → Type 0
KeepAll cs remaining p (continue remaining' p') = HandleAll cs remaining remaining' p p'
KeepAll cs remaining p (ended end) = IsStop end

HandleAll-cons :
    (c : Call) (cs : List Call) (r r' : List PendingToolCall) (p p' : Progress)
    → Handles c r r' p p'
    → (h : Handling) → KeepAll cs r' p' h
    → KeepAll (c ∷ cs) r p h
HandleAll-cons c cs r r' p p' first (continue r'' p'') k = record {
  entries = Grows-trans r r' r'' first.entries k.entries;
  messages = Grows-trans p.sink.new_messages _ _ first.messages k.messages;
  handled = (IsHandled-Grows c r' r'' p' p'' k.entries k.messages first.handled, k.handled);
}
HandleAll-cons c cs r r' p p' first (ended end) k = k

Ensures-cons :
    (c : Call) (cs : List Call) (r r' : List PendingToolCall) (p p' : Progress)
    → Handles c r r' p p'
    → (h : ResolveError ⊎ Handling) → Ensures (KeepAll cs r' p') h
    → Ensures (KeepAll (c ∷ cs) r p) h
Ensures-cons c cs r r' p p' first (inl e) k = tt
Ensures-cons c cs r r' p p' first (inr h) k = HandleAll-cons c cs r r' p p' first h k

-- One call, and the loop behind it.
abbrev next_call :
    Agent → List PendingToolCall → List Call → ResolveError ⊎ Handling → ResolveError ⊎ Handling
next_call a entries cs handling = elim handling [
  | inl e ↦ inl e
  | inr (ended end) ↦ inr (ended end)
  | inr (continue remaining p) ↦ handle_calls a entries cs remaining p
]

handle_calls-KeepAll :
    (a : Agent) (entries : List PendingToolCall) (cs : List Call) (remaining : List PendingToolCall)
    (p : Progress)
    → All (IsResumable a) entries
    → Ensures (KeepAll cs remaining p) (handle_calls a entries cs remaining p)
unfolding handle_calls
handle_calls-KeepAll a entries [] remaining p h = record {
  entries = Grows-refl remaining;
  messages = Grows-refl p.sink.new_messages;
  handled = tt;
}
handle_calls-KeepAll a entries (c ∷ cs) remaining p h =
    go_next (handle_call a c (state_entry c.tool_call_id entries) remaining p)
      (handle_call-Keeps a entries c (state_entry c.tool_call_id entries) remaining p h refl)
      (λ r q. handle_calls-KeepAll a entries cs r q h)
  where
    go_next :
        (r : ResolveError ⊎ Handling)
        → Ensures (Keeps c remaining p) r
        → ((r' : List PendingToolCall) (q : Progress)
            → Ensures (KeepAll cs r' q) (handle_calls a entries cs r' q))
        → Ensures (KeepAll (c ∷ cs) remaining p) (next_call a entries cs r)
    go_next (inl e) k ih = tt
    go_next (inr (ended end)) k ih = k
    go_next (inr (continue r' q)) k ih = Ensures-cons c cs remaining r' p q k _ (ih r' q)

-- How the resumed run starts: the loop goes on when all calls are answered; where it ends for
-- approvals, each call is answered or pending.
abbrev pub IsAccounted : List Call → StepEnd → Type 0
IsAccounted cs (go_on p) = All (λ c. IsAnswered c p.sink.new_messages) cs
IsAccounted cs (finished stop_condition es p) = Unit
IsAccounted cs (finished _ es p) = All (IsHandled es p) cs

abbrev pub Accounts : List Call → DanglingError ⊎ StepEnd → Type 0
Accounts cs (inl e) = Unit
Accounts cs (inr end) = IsAccounted cs end

answered_only :
    (es : List PendingToolCall) (p : Progress) (c : Call)
    → es ≡ []
    → IsHandled es p c
    → IsAnswered c p.sink.new_messages
answered_only es p c e (inl h) = h
answered_only es p c e (inr (entry, i, h)) = absurd (rw e at h)

end_remaining-IsAccounted :
    (cs : List Call) (remaining : List PendingToolCall) (p : Progress)
    → All (IsHandled remaining p) cs
    → IsAccounted cs (end_remaining remaining p)
end_remaining-IsAccounted cs [] p h =
    All-map (IsHandled [] p) (λ c. IsAnswered c p.sink.new_messages)
      (λ c. answered_only [] p c refl) cs h
end_remaining-IsAccounted cs (e ∷ es) p h = h

end_handled-Accounts :
    (cs : List Call) (p : Progress) (r : ResolveError ⊎ Handling)
    → Ensures (KeepAll cs [] p) r
    → Accounts cs (end_handled r)
end_handled-Accounts cs p (inl e) k = tt
end_handled-Accounts cs p (inr (ended (finished reason es q))) k = rw k tt
end_handled-Accounts cs p (inr (ended (go_on q))) k = absurd k
end_handled-Accounts cs p (inr (continue remaining q)) k =
    end_remaining-IsAccounted cs remaining q k.handled

-- Without entries every call is answered.
record AnswerAll (cs : List Call) (p p' : Progress) : Type 0 where
  grown : Grows p.sink.new_messages p'.sink.new_messages
  answers : All (λ c. IsAnswered c p'.sink.new_messages) cs

AnswerAll-cons :
    (c : Call) (cs : List Call) (p q : Progress)
    → Handles c [] [] p q
    → (r : ResolveError ⊎ Progress) → Ensures (AnswerAll cs q) r
    → Ensures (AnswerAll (c ∷ cs) p) r
AnswerAll-cons c cs p q first (inl e) k = tt
AnswerAll-cons c cs p q first (inr p') k = record {
  grown = Grows-trans p.sink.new_messages _ _ first.messages k.grown;
  answers = (
    answered_only [] p' c refl (IsHandled-Grows c [] [] q p' (Grows-refl []) k.grown first.handled),
    k.answers,
  );
}

abbrev after_result : Progress → ToolCallResult → Progress
after_result p r = record p { sink = drain r.updates (append r.message p.sink) }

execute_all-AnswerAll :
    (a : Agent) (cs : List Call) (p : Progress) → Ensures (AnswerAll cs p) (execute_all a cs p)
unfolding execute_all
execute_all-AnswerAll a [] p = record { grown = Grows-refl p.sink.new_messages; answers = tt }
execute_all-AnswerAll a (c ∷ cs) p =
    by_result (execute_tool_call a.tools c p.tool_state p.sink.all_messages)
      (execute_tool_call-IsAnswer a.tools c (context_of p)) (execute_all-AnswerAll a cs)
  where
    by_result :
        (r : ResolveError ⊎ ToolCallResult)
        → Ensures (IsAnswer c) r
        → ((q : Progress) → Ensures (AnswerAll cs q) (execute_all a cs q))
        → Ensures
            (AnswerAll (c ∷ cs) p)
            (elim r [ inl e ↦ inl e | inr r ↦ execute_all a cs (after_result p r) ])
    by_result (inl e) k ih = tt
    by_result (inr r) k ih =
        AnswerAll-cons c cs p (after_result p r)
          (answered-Handles c [] p p (after_result p r) r.message r.output r.is_error refl k
            (drain-Grows r.updates (append r.message p.sink)))
          _ (ih (after_result p r))

execute_unresolved-Accounts :
    (a : Agent) (entries : List PendingToolCall) (cs : List Call) (p : Progress)
    → All (IsResumable a) entries
    → Accounts cs (execute_unresolved a entries cs p)
unfolding execute_unresolved
execute_unresolved-Accounts a entries [] p h = tt
execute_unresolved-Accounts a [] (c ∷ cs) p h = all_executed _ (execute_all-AnswerAll a (c ∷ cs) p)
  where
    all_executed :
        (r : ResolveError ⊎ Progress)
        → Ensures (AnswerAll (c ∷ cs) p) r
        → Accounts (c ∷ cs) (end_executed r)
    all_executed (inl e) k = tt
    all_executed (inr q) k = k.answers
execute_unresolved-Accounts a (e ∷ es) (c ∷ cs) p h =
    end_handled-Accounts (c ∷ cs) p _ (handle_calls-KeepAll a (e ∷ es) (c ∷ cs) [] p h)

without_calls-Accounts : (ms : List ModelMessage) (p : Progress) → Accounts [] (without_calls ms p)
without_calls-Accounts [] p = tt
without_calls-Accounts (m ∷ ms) p = tt

-- A resumed run, where each entry of a paused sub-agent is run again without preToolUse hooks, and
-- with the last assistant message and the messages behind it: it goes on only when this run has
-- appended a result for each call of that message that has none behind it; and where it ends, but by
-- ctx.stop, each such call has a result that this run appended or an entry that remains pending.
pub execute_dangling_tool_calls-Accounts :
    (a : Agent) (entries : List PendingToolCall) (p : Progress) (m : ModelMessage)
    (later : List ModelMessage)
    → All (IsResumable a) entries
    → last_assistant p.sink.all_messages ≡ some (m, later)
    → Accounts
        (without_result later (tool_call_parts (array_parts m)))
        (execute_dangling_tool_calls a entries p)
unfolding execute_dangling_tool_calls
execute_dangling_tool_calls-Accounts a entries p m later h e =
    rw (e, execute_dangling_tool_calls) (by_calls (tool_call_parts (array_parts m)))
  where
    by_calls :
        (cs : List Call)
        → Accounts (without_result later cs) (elim cs [
          | [] ↦ without_calls later p
          | c ∷ cs ↦ execute_unresolved a entries (without_result later (c ∷ cs)) p
        ])
    by_calls [] = without_calls-Accounts later p
    by_calls (c ∷ cs) = execute_unresolved-Accounts a entries _ p h

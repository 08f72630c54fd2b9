-- ===== src/Dangling/Stopped.antt =====
-- A stop in executeDanglingToolCalls of packages/agentlayer-core/src/agent.ts: the entries that the run
-- ends with.
use agentlayer.Prelude.{
  String, Option, List, [], ◌∷◌, ◌++◌, ◌≡◌, refl, sym, ap, ◌∙◌, ◌⊎◌, inl, inr, All, All-append,
  append_assoc, append-nil,
}
use mathlib.Core.Path.{subst}
use agentlayer.Prelude.Json.{Json}
use agentlayer.State.{PendingToolCall}
use agentlayer.Loop.{Call}
use agentlayer.Loop.Phases.{Progress, StepEnd, finished, stop_condition}
use agentlayer.Execute.{ResolveError}
use agentlayer.Execute.Resolve.{Agent}
use agentlayer.Execute.Answers.{Ensures}
use agentlayer.Dangling.{
  state_entry, Handling, continue, ended, handle_call, handle_calls, end_handled,
  execute_unresolved,
}
use agentlayer.Dangling.Growing.{Grows, Grows-trans, IsHandled, IsHandled-Grows, Handles}
use agentlayer.Dangling.Handled.{Keeps, IsResumable, handle_call-Keeps}
use agentlayer.Dangling.Parks.{stop_entry, Parks, handle_call-Parks}

-- The entry is of one of the calls.
abbrev pub IsEntryOf : List Call → PendingToolCall → Type 0
IsEntryOf [] e = ⊥
IsEntryOf (c ∷ cs) e = (e.tool_call_id ≡ c.tool_call_id) ⊎ IsEntryOf cs e

-- One of the calls stopped the run: the calls before it are answered or keep an entry, the entries are
-- of these calls, and behind them stands one for the call that stopped; none is of a later call.
pub record StopsAt (cs : List Call) (remaining kept : List PendingToolCall) (p p' : Progress)
    : Type 0 where
  pub before : List Call
  pub call : Call
  pub after : List Call
  pub earlier : List PendingToolCall
  pub input : Json
  pub reason : Option String
  pub split : cs ≡ before ++ (call ∷ after)
  pub entries : kept ≡ (remaining ++ earlier) ++ (stop_entry call input reason ∷ [])
  pub own : All (IsEntryOf before) earlier
  pub handled : All (IsHandled (remaining ++ earlier) p') before
  pub messages : Grows p.sink.new_messages p'.sink.new_messages

IsEntryOf-later :
    (c : Call) (cs : List Call) (es : List PendingToolCall)
    → All (IsEntryOf cs) es
    → All (IsEntryOf (c ∷ cs)) es
IsEntryOf-later c cs [] h = tt
IsEntryOf-later c cs (e ∷ es) (h, hs) = (inr h, IsEntryOf-later c cs es hs)

-- What a call that goes on has added.
Parks-added :
    (c : Call) (remaining remaining' : List PendingToolCall) (p p' : Progress)
    → Parks c remaining p (continue remaining' p')
    → (added : List PendingToolCall) × (remaining' ≡ remaining ++ added)
      × ((cs : List Call) → All (IsEntryOf (c ∷ cs)) added)
Parks-added c remaining remaining' p p' (inl e) = ([], e ∙ sym (append-nil remaining), (λ cs. tt))
Parks-added c remaining remaining' p p' (inr (entry, i, e)) = (entry ∷ [], e, (λ cs. (inl i, tt)))

StopsAt-cons :
    (c : Call) (cs : List Call) (r r' kept : List PendingToolCall) (p p' q : Progress)
    → Handles c r r' p p'
    → Parks c r p (continue r' p')
    → StopsAt cs r' kept p' q
    → StopsAt (c ∷ cs) r kept p q
StopsAt-cons c cs r r' kept p p' q first parks s =
    let (added, e, own) = Parks-added c r r' p p' parks in
    let same =
      ap (λ (l : List PendingToolCall). l ++ s.earlier) e ∙ append_assoc r added s.earlier in
    record {
      before = c ∷ s.before;
      call = s.call;
      after = s.after;
      earlier = added ++ s.earlier;
      input = s.input;
      reason = s.reason;
      split = ap (λ (l : List Call). c ∷ l) s.split;
      entries =
          s.entries
          ∙ ap (λ (l : List PendingToolCall). l ++ (stop_entry s.call s.input s.reason ∷ [])) same;
      own =
          All-append (IsEntryOf (c ∷ s.before)) added s.earlier (own s.before)
            (IsEntryOf-later c s.before s.earlier s.own);
      handled =
          subst (λ (l : List PendingToolCall). All (IsHandled l q) (c ∷ s.before)) same
            (
              IsHandled-Grows c r' (r' ++ s.earlier) p' q (s.earlier, refl) s.messages
                  first.handled,
              s.handled,
            );
      messages = Grows-trans p.sink.new_messages _ q.sink.new_messages first.messages s.messages;
    }

abbrev IsStoppedEnd : List PendingToolCall → Progress → ResolveError ⊎ Handling → Type 0
IsStoppedEnd kept q r = end_handled r ≡ inr (finished stop_condition kept q)

StopsAt-here :
    (c : Call) (cs : List Call) (r kept : List PendingToolCall) (p q : Progress) (end : StepEnd)
    → Parks c r p (ended end)
    → end ≡ finished stop_condition kept q
    → StopsAt (c ∷ cs) r kept p q
StopsAt-here c cs r kept p q end (input, reason, p', e, grown) h = record {
  before = [];
  call = c;
  after = cs;
  earlier = [];
  input = input;
  reason = reason;
  split = refl;
  entries =
      (finished_inj kept (r ++ (stop_entry c input reason ∷ [])) q p' (sym h ∙ e)).0
      ∙ ap (λ (l : List PendingToolCall). l ++ (stop_entry c input reason ∷ []))
          (sym (append-nil r));
  own = tt;
  handled = tt;
  messages =
      subst (λ (x : Progress). Grows p.sink.new_messages x.sink.new_messages)
        (sym (finished_inj kept (r ++ (stop_entry c input reason ∷ [])) q p' (sym h ∙ e)).1) grown;
}
  where
    finished_inj :
        (es es' : List PendingToolCall) (x y : Progress)
        → finished stop_condition es x ≡ finished stop_condition es' y
        → (es ≡ es') × (x ≡ y)
    finished_inj es es' x y e = (cc, cc)

handle_calls-StopsAt :
    (a : Agent) (entries : List PendingToolCall) (cs : List Call)
    (remaining kept : List PendingToolCall) (p q : Progress)
    → All (IsResumable a) entries
    → IsStoppedEnd kept q (handle_calls a entries cs remaining p)
    → StopsAt cs remaining kept p q
unfolding handle_calls
handle_calls-StopsAt a entries [] [] kept p q h e = absurd (cc)
handle_calls-StopsAt a entries [] (r ∷ rs) kept p q h e = absurd (cc)
handle_calls-StopsAt a entries (c ∷ cs) remaining kept p q h e =
    go_next (handle_call a c (state_entry c.tool_call_id entries) remaining p)
      (handle_call-Keeps a entries c (state_entry c.tool_call_id entries) remaining p h refl)
      (handle_call-Parks a entries c (state_entry c.tool_call_id entries) remaining p h refl)
      (λ r p' k. handle_calls-StopsAt a entries cs r kept p' q h k) e
  where
    go_next :
        (r : ResolveError ⊎ Handling)
        → Ensures (Keeps c remaining p) r
        → Ensures (Parks c remaining p) r
        → ((r' : List PendingToolCall) (p' : Progress)
            → IsStoppedEnd kept q (handle_calls a entries cs r' p')
            → StopsAt cs r' kept p' q)
        → IsStoppedEnd kept q (elim r [
          | inl e ↦ inl e
          | inr (ended end) ↦ inr (ended end)
          | inr (continue remaining p) ↦ handle_calls a entries cs remaining p
        ])
        → StopsAt (c ∷ cs) remaining kept p q
    go_next (inl f) k l ih m = absurd (cc)
    go_next (inr (ended end)) k l ih m =
        StopsAt-here c cs remaining kept p q end l (let i = m in cc)
    go_next (inr (continue r' p')) k l ih m =
        StopsAt-cons c cs remaining r' kept p p' q k l (ih r' p' m)

-- Where a call stops a resumed run that had entries, and entries of paused sub-agents are run again
-- without preToolUse hooks: each call before it has a result that this run appended or keeps an entry,
-- the entries that the run ends with are of these calls, and behind them stands one stopped entry for
-- the call that stopped. Entries that the state held for the calls behind it, approvals that are
-- awaited included, are gone.
pub execute_unresolved-stop :
    (a : Agent) (e : PendingToolCall) (es : List PendingToolCall) (cs : List Call)
    (kept : List PendingToolCall) (p q : Progress)
    → All (IsResumable a) (e ∷ es)
    → execute_unresolved a (e ∷ es) cs p ≡ inr (finished stop_condition kept q)
    → StopsAt cs [] kept p q
unfolding execute_unresolved
execute_unresolved-stop a e es [] kept p q h k = absurd (cc)
execute_unresolved-stop a e es (c ∷ cs) kept p q h k =
    handle_calls-StopsAt a (e ∷ es) (c ∷ cs) [] kept p q h k

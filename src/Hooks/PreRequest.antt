-- ===== src/Hooks/PreRequest.antt =====
-- The hooks before a request to the model: packages/agentlayer-core/src/hooks/pre-request.ts, and their
-- use in `executeLoop` of packages/agentlayer-core/src/agent.ts.
use agentlayer.Prelude.{
  ℕ, Bool, true, false, ◌||◌, Option, some, List, [], ◌∷◌, ◌++◌, ◌≡◌, refl, sym, ap, ◌∙◌, or_value,
  if◌then◌else◌,
}
use agentlayer.Messages.{ModelMessage}
use agentlayer.State.{is_empty}

pub data PreRequestResult : Type 0 where
  next_request : PreRequestResult
  transform : List ModelMessage → (persist : Bool) → PreRequestResult

pub record PreRequestContext : Type 0 where
  pub messages : List ModelMessage
  pub context_window_tokens : ℕ
  pub context_window_limit : Option ℕ

abbrev pub PreRequestHook : Type 0
PreRequestHook = PreRequestContext → PreRequestResult

-- The input of a chain.
pub record ChainInput : Type 0 where
  pub messages : List ModelMessage
  pub context_window_tokens : Option ℕ
  pub context_window_limit : Option ℕ

-- The variables of runPreRequestHooks, which are also its result.
pub record RequestChain : Type 0 where
  pub messages : List ModelMessage
  pub persist : Bool
  pub transformed : Bool

unfoldable pub request_step : PreRequestResult → RequestChain → RequestChain
request_step next_request s = s
request_step (transform ms persist) s = record {
  messages = ms;
  transformed = true;
  persist = if persist then true else s.persist;
}

unfoldable pub request_loop : List PreRequestHook → ChainInput → RequestChain → RequestChain
unfolding request_step
request_loop [] input s = s
request_loop (hook ∷ hooks) input s = request_loop hooks input (
    request_step
      (hook (record {
        messages = s.messages;
        context_window_tokens = or_value input.context_window_tokens 0;
        context_window_limit = input.context_window_limit;
      }))
      s)

unfoldable pub run_pre_request_hooks : List PreRequestHook → ChainInput → RequestChain
unfolding request_loop
run_pre_request_hooks hooks input =
    request_loop hooks input
      (record { messages = input.messages; persist = false; transformed = false })

-- The messages of a request, and those that the run keeps.
pub record Prepared : Type 0 where
  pub request_messages : List ModelMessage
  pub all_messages : List ModelMessage

unfoldable pub prepare_request : List PreRequestHook → List ModelMessage → ℕ → Option ℕ → Prepared
unfolding run_pre_request_hooks
prepare_request hooks all tokens limit =
    let result = run_pre_request_hooks hooks (record {
      messages = all;
      context_window_tokens = some tokens;
      context_window_limit = limit;
    }) in
    if is_empty hooks
    then record { request_messages = all; all_messages = all }
    else (if result.transformed
        then record {
          request_messages = result.messages;
          all_messages = if result.persist then result.messages else all;
        }
        else record { request_messages = all; all_messages = all })

-- A chain that went on from another one's variables.
abbrev pub joined : RequestChain → RequestChain → RequestChain
joined before after = record {
  messages = after.messages;
  persist = before.persist || after.persist;
  transformed = before.transformed || after.transformed;
}

or_true : (b : Bool) → (b || true) ≡ true
or_true true = refl
or_true false = refl

or_false : (b : Bool) → (b || false) ≡ b
or_false true = refl
or_false false = refl

or_assoc : (a b c : Bool) → ((a || b) || c) ≡ (a || (b || c))
or_assoc true b c = refl
or_assoc false b c = refl

request_step-joined :
    (r : PreRequestResult) (b s : RequestChain)
    → request_step r (joined b s) ≡ joined b (request_step r s)
unfolding request_step
request_step-joined next_request b s = refl
request_step-joined (transform ms true) b s = rw (or_true b.persist, or_true b.transformed) refl
request_step-joined (transform ms false) b s = rw (or_true b.transformed) refl

request_loop-joined :
    (hooks : List PreRequestHook) (input : ChainInput) (b s : RequestChain)
    → request_loop hooks input (joined b s) ≡ joined b (request_loop hooks input s)
unfolding request_loop
request_loop-joined [] input b s = refl
request_loop-joined (hook ∷ hooks) input b s =
    rw (request_step-joined _ b s) (request_loop-joined hooks input b _)

request_loop-append :
    (first later : List PreRequestHook) (input : ChainInput) (s : RequestChain)
    → request_loop (first ++ later) input s ≡ request_loop later input (request_loop first input s)
unfolding request_loop
request_loop-append [] later input s = refl
request_loop-append (hook ∷ first) later input s = request_loop-append first later input _

-- A chain reads its input's messages at its start alone.
request_loop-messages :
    (hooks : List PreRequestHook) (input : ChainInput) (ms : List ModelMessage) (s : RequestChain)
    → request_loop hooks (record input { messages = ms }) s ≡ request_loop hooks input s
unfolding request_loop
request_loop-messages [] input ms s = refl
request_loop-messages (hook ∷ hooks) input ms s = request_loop-messages hooks input ms _

joined-start :
    (b : RequestChain)
    → joined b (record { messages = b.messages; persist = false; transformed = false }) ≡ b
joined-start b = rw (or_false b.persist, or_false b.transformed) refl

-- Hooks in two chains: the later chain starts from the messages that the first one left, and the run
-- keeps the messages, or sees a transform, where either chain asked for it.
pub run_pre_request_hooks-append :
    (first later : List PreRequestHook) (input : ChainInput)
    → let before = run_pre_request_hooks first input in
      run_pre_request_hooks (first ++ later) input
      ≡ joined before (run_pre_request_hooks later (record input { messages = before.messages }))
unfolding run_pre_request_hooks
run_pre_request_hooks-append first later input =
    let b = run_pre_request_hooks first input in
    let s : RequestChain = record { messages = b.messages; persist = false; transformed = false } in
    request_loop-append first later input _
    ∙ ap (request_loop later input) (sym (joined-start b))
    ∙ request_loop-joined later input b s
    ∙ ap (joined b) (sym (request_loop-messages later input b.messages s))

-- ===== src/Pending/Answers.antt =====
-- Which calls `getPendingToolCalls` returns, and how answers change it.
use mathlib.Core.Path.{subst}
use agentlayer.Prelude.{
  String, ◌≡◌, refl, Bool, true, false, not, ◌&&◌, ◌||◌, Option, none, some, List, [], ◌∷◌, ◌++◌,
  ◌==◌, any, All, Bool-cases, Option-cases, inl, inr, arith, eq_iff,
}
use agentlayer.Prelude.Json.{Json}
use agentlayer.Messages.{
  tool, PartBody, tool_call, tool_result, text, reasoning, file, image, other, Part, ModelMessage,
  array_parts,
}
use agentlayer.Pending.{
  UnresolvedCall, last_calls, has_calls, is_resolved, unresolved, parse_input,
  get_pending_tool_calls,
}

abbrev pub lists : String → List UnresolvedCall → Bool
lists i calls = any (λ c. c.tool_call_id == i) calls

abbrev pub is_call_of : String → Part → Bool
is_call_of i p = elim p.body [ tool_call j name input ↦ j == i | _ ↦ false ]

module _ (parse : String → Option Json) (later : List ModelMessage) (i : String) where
  -- A part in front of parts for which the statement holds.
  part-lists :
      (p : Part) (b : PartBody) (ps : List Part) (calls rest : List UnresolvedCall)
      → p.body ≡ b
      → unresolved parse later ps ≡ some rest
      → lists i rest ≡ (any (is_call_of i) ps && not (is_resolved i later))
      → unresolved parse later (p ∷ ps) ≡ some calls
      → lists i calls ≡ (any (is_call_of i) (p ∷ ps) && not (is_resolved i later))
  unfolding unresolved
  part-lists p (tool_call j name input) ps calls rest y e ih h =
      elim (Option-cases (parse_input parse input)) [
        | inl z ↦ elim (Bool-cases (is_resolved j later)) [
          | inl r ↦ ground (arith, y, e, ih, h, z, r, eq_iff j i)
          | inr r ↦ absurd (ground (arith, y, e, h, z, r))
        ]
        | inr (parsed, z) ↦ ground (arith, y, e, ih, h, z, eq_iff j i)
      ]
  part-lists p (text s) ps calls rest y e ih h = ground (arith, y, e, ih, h)
  part-lists p (reasoning s) ps calls rest y e ih h = ground (arith, y, e, ih, h)
  part-lists p (file x) ps calls rest y e ih h = ground (arith, y, e, ih, h)
  part-lists p (image x) ps calls rest y e ih h = ground (arith, y, e, ih, h)
  part-lists p (tool_result j name out err) ps calls rest y e ih h = ground (arith, y, e, ih, h)
  part-lists p (other x) ps calls rest y e ih h = ground (arith, y, e, ih, h)

  unresolved-lists :
      (ps : List Part) (calls : List UnresolvedCall)
      → unresolved parse later ps ≡ some calls
      → lists i calls ≡ (any (is_call_of i) ps && not (is_resolved i later))
  unfolding unresolved
  unresolved-lists [] calls h = ground (arith, h)
  unresolved-lists (p ∷ ps) calls h = elim (Option-cases (unresolved parse later ps)) [
    | inl e ↦ absurd (ground (arith, h, e))
    | inr (rest, e) ↦ part-lists p p.body ps calls rest refl e (unresolved-lists ps rest e) h
  ]

-- Where no input fails to parse, a call is returned exactly when the last assistant message with
-- tool calls holds it and no tool message behind it has a result for it; a conversation without
-- such a message returns none.
pub get_pending_tool_calls-lists :
    (parse : String → Option Json) (ms : List ModelMessage) (calls : List UnresolvedCall)
    (i : String)
    → get_pending_tool_calls parse ms ≡ some calls
    → lists i calls ≡ elim (last_calls ms) [
      | none ↦ false
      | some (m, later) ↦ any (is_call_of i) (array_parts m) && not (is_resolved i later)
    ]
unfolding get_pending_tool_calls
get_pending_tool_calls-lists parse ms calls i h = elim (Option-cases (last_calls ms)) [
  | inl e ↦ ground (arith, h, e)
  | inr ((m, later), e) ↦
      ground (arith, e, unresolved-lists parse later i (array_parts m) calls (ground (arith, h, e)))
]

-- Messages with the results of tools.
abbrev AllTool : List ModelMessage → Type 0
AllTool ms = All (λ m. m.role ≡ tool) ms

last_calls-tool : (ms : List ModelMessage) → AllTool ms → last_calls ms ≡ none
unfolding last_calls has_calls
last_calls-tool [] h = refl
last_calls-tool (m ∷ ms) (r, h) = ground (arith, r, last_calls-tool ms h)

last_calls-none :
    (ms news : List ModelMessage)
    → AllTool news
    → last_calls ms ≡ none
    → last_calls (ms ++ news) ≡ none
unfolding last_calls
last_calls-none [] news t h = last_calls-tool news t
last_calls-none (x ∷ ms) news t h = elim (Option-cases (last_calls ms)) [
  | inl e ↦ ground (arith, h, e, last_calls-none ms news t e)
  | inr (found, e) ↦ absurd (ground (arith, h, e))
]

last_calls-append :
    (ms news later : List ModelMessage) (m : ModelMessage)
    → AllTool news
    → last_calls ms ≡ some (m, later)
    → last_calls (ms ++ news) ≡ some (m, later ++ news)
unfolding last_calls
last_calls-append [] news later m t h = absurd (cc)
last_calls-append (x ∷ ms) news later m t h = elim (Option-cases (last_calls ms)) [
  | inl e ↦ ground (arith, h, e, last_calls-none ms news t e)
  | inr ((n, rest), e) ↦ ground (arith, h, e, last_calls-append ms news rest n t e)
]

pub is_resolved-append :
    (i : String) (later news : List ModelMessage)
    → is_resolved i (later ++ news) ≡ (is_resolved i later || is_resolved i news)
unfolding is_resolved
is_resolved-append i [] news = refl
is_resolved-append i (m ∷ later) news = ground (arith, is_resolved-append i later news)

module _ (parse : String → Option Json) (later news : List ModelMessage) where
  -- Each of the calls has a result among the new messages.
  abbrev AllAnswered : List UnresolvedCall → Type 0
  AllAnswered calls = All (λ c. is_resolved c.tool_call_id news ≡ true) calls

  -- A part that is no call leaves the calls as they are.
  passed :
      (ps : List Part) (calls rest : List UnresolvedCall)
      → calls ≡ rest
      → (AllAnswered rest → unresolved parse (later ++ news) ps ≡ some [])
      → AllAnswered calls
      → unresolved parse (later ++ news) ps ≡ some []
  passed ps calls rest same ih a = ih (subst AllAnswered same a)

  part-answered :
      (p : Part) (b : PartBody) (ps : List Part) (calls rest : List UnresolvedCall)
      → p.body ≡ b
      → unresolved parse later ps ≡ some rest
      → unresolved parse later (p ∷ ps) ≡ some calls
      → (AllAnswered rest → unresolved parse (later ++ news) ps ≡ some [])
      → AllAnswered calls
      → unresolved parse (later ++ news) (p ∷ ps) ≡ some []
  unfolding unresolved
  part-answered p (tool_call j name input) ps calls rest y e h ih a =
      elim (Bool-cases (is_resolved j later)) [
        | inl r ↦
            let same : calls ≡ rest = ground (arith, y, e, h, r) in
            ground (arith, y, r, is_resolved-append j later news, ih (subst AllAnswered same a))
        | inr r ↦ elim (Option-cases (parse_input parse input)) [
          | inl z ↦ absurd (ground (arith, y, e, h, z, r))
          | inr (parsed, z) ↦
              let c : UnresolvedCall = record {
                tool_call_id = j;
                tool_name = name;
                input = parsed;
              } in
              let same : calls ≡ c ∷ rest = ground (arith, y, e, h, z, r) in
              let (first, others) : AllAnswered (c ∷ rest) = subst AllAnswered same a in
              ground (arith, y, r, first, is_resolved-append j later news, ih others)
        ]
      ]
  part-answered p (text s) ps calls rest y e h ih a =
      ground (arith, y, passed ps calls rest (ground (arith, y, e, h)) ih a)
  part-answered p (reasoning s) ps calls rest y e h ih a =
      ground (arith, y, passed ps calls rest (ground (arith, y, e, h)) ih a)
  part-answered p (file x) ps calls rest y e h ih a =
      ground (arith, y, passed ps calls rest (ground (arith, y, e, h)) ih a)
  part-answered p (image x) ps calls rest y e h ih a =
      ground (arith, y, passed ps calls rest (ground (arith, y, e, h)) ih a)
  part-answered p (tool_result j name out err) ps calls rest y e h ih a =
      ground (arith, y, passed ps calls rest (ground (arith, y, e, h)) ih a)
  part-answered p (other x) ps calls rest y e h ih a =
      ground (arith, y, passed ps calls rest (ground (arith, y, e, h)) ih a)

  unresolved-answered :
      (ps : List Part) (calls : List UnresolvedCall)
      → unresolved parse later ps ≡ some calls
      → AllAnswered calls
      → unresolved parse (later ++ news) ps ≡ some []
  unfolding unresolved
  unresolved-answered [] calls h a = refl
  unresolved-answered (p ∷ ps) calls h a = elim (Option-cases (unresolved parse later ps)) [
    | inl e ↦ absurd (ground (arith, h, e))
    | inr (rest, e) ↦
        part-answered p p.body ps calls rest refl e h (unresolved-answered ps rest e) a
  ]

-- Where no input failed to parse, and messages of tools follow that have a result for each call
-- that was returned, no call is returned any more.
pub get_pending_tool_calls-answered :
    (parse : String → Option Json) (ms news : List ModelMessage) (calls : List UnresolvedCall)
    → get_pending_tool_calls parse ms ≡ some calls
    → All (λ m. m.role ≡ tool) news
    → All (λ c. is_resolved c.tool_call_id news ≡ true) calls
    → get_pending_tool_calls parse (ms ++ news) ≡ some []
unfolding get_pending_tool_calls
get_pending_tool_calls-answered parse ms news calls h t a = elim (Option-cases (last_calls ms)) [
  | inl e ↦ ground (arith, last_calls-none ms news t e)
  | inr ((m, later), e) ↦
      let known : unresolved parse later (array_parts m) ≡ some calls = ground (arith, h, e) in
      ground (
        arith,
        last_calls-append ms news later m t e,
        unresolved-answered parse later news (array_parts m) calls known a,
      )
]

-- ===== src/Stop/Conditions.antt =====
-- Which condition ends the loop, and when `doomLoop` does.
use agentlayer.Prelude.{
  ℕ, ◌≤◌, ◌≡◌, ◌↔◌, refl, ap, sym, ◌∙◌, String, Bool, true, false, Option, none, some, List, [],
  ◌∷◌, ◌++◌, arith, eq_iff, eqb, if◌then◌else◌, length, length-drop, drop, any, all, not, All,
  Option-cases, inl, inr, ◌-◌,
}
use agentlayer.Prelude.Json.{stringify}
use agentlayer.Stop.{
  Step, ToolCall, StopConditionDef, StopResult, StopTiming, should_stop, is_timing,
  timing_or_default, doom_loop, same_call, first_call,
}

-- The condition belongs to the phase and its check says true; it is quiet if it does not belong or
-- says false.
abbrev pub Fires : List Step → StopTiming → StopConditionDef → Type 0
Fires steps timing def =
    (is_timing (timing_or_default def) timing ≡ true) × (def.check steps ≡ some true)

abbrev pub is_quiet : List Step → StopTiming → StopConditionDef → Bool
is_quiet steps timing def =
    if is_timing (timing_or_default def) timing
    then (elim (def.check steps) [ none ↦ false | some fired ↦ not fired ])
    else true

abbrev pub result_of : StopConditionDef → StopResult
result_of def = record { name = def.name; message = def.message }

pub record IsFirst (steps : List Step) (timing : StopTiming) (defs : List StopConditionDef)
    (r : StopResult) : Type 0 where
  pub before : List StopConditionDef
  pub def : StopConditionDef
  pub after : List StopConditionDef
  pub listed : defs ≡ before ++ def ∷ after
  pub quiet : All (λ d. is_quiet steps timing d ≡ true) before
  pub fires : Fires steps timing def
  pub result : r ≡ result_of def

module _ (steps : List Step) (timing : StopTiming) where
  IsFirst-cons :
      {d : StopConditionDef} {defs : List StopConditionDef} {r : StopResult}
      → is_quiet steps timing d ≡ true
      → IsFirst steps timing defs r
      → IsFirst steps timing (d ∷ defs) r
  IsFirst-cons {d} q f = record {
    before = d ∷ f.before;
    def = f.def;
    after = f.after;
    listed = ap (λ ds. d ∷ ds) f.listed;
    quiet = (q, f.quiet);
    fires = f.fires;
    result = f.result;
  }

  should_stop_sound :
      (defs : List StopConditionDef) {r : StopResult}
      → should_stop defs steps timing ≡ some (some r)
      → IsFirst steps timing defs r
  unfolding should_stop
  should_stop_sound [] h = absurd (cc)
  should_stop_sound (d ∷ defs) {r} h =
      go (is_timing (timing_or_default d) timing) refl (d.check steps) refl (should_stop_sound defs)
    where
      go :
          (b : Bool)
          → is_timing (timing_or_default d) timing ≡ b
          → (c : Option Bool) → d.check steps ≡ c
          → (should_stop defs steps timing ≡ some (some r) → IsFirst steps timing defs r)
          → IsFirst steps timing (d ∷ defs) r
      go false eb c ec ih = IsFirst-cons (ground (arith, eb)) (ih (ground (arith, eb, h)))
      go true eb none ec ih = absurd (ground (arith, eb, ec, h))
      go true eb (some false) ec ih =
          IsFirst-cons (ground (arith, eb, ec)) (ih (ground (arith, eb, ec, h)))
      go true eb (some true) ec ih = record {
        before = [];
        def = d;
        after = defs;
        listed = refl;
        quiet = tt;
        fires = (eb, ec);
        result = ground (arith, eb, ec, h);
      }

  should_stop_complete :
      (before : List StopConditionDef) (d : StopConditionDef) (after : List StopConditionDef)
      → All (λ d. is_quiet steps timing d ≡ true) before
      → Fires steps timing d
      → should_stop (before ++ d ∷ after) steps timing ≡ some (some (result_of d))
  unfolding should_stop
  should_stop_complete [] d after q f = ground arith
  should_stop_complete (c ∷ before) d after (q, qs) f =
      ground (arith, should_stop_complete before d after qs f)

-- `shouldStop` returns the result of a condition exactly when that condition fires in this phase
-- and every condition listed before it is quiet (of another phase, or its check says false).
pub should_stop-IsFirst_iff :
    (defs : List StopConditionDef) (steps : List Step) (timing : StopTiming) (r : StopResult)
    → (should_stop defs steps timing ≡ some (some r)) ↔ IsFirst steps timing defs r
should_stop-IsFirst_iff defs steps timing r = (
  should_stop_sound steps timing defs,
  λ f. rw f.listed (
      should_stop_complete steps timing f.before f.def f.after f.quiet f.fires
      ∙ ap (λ x. some (some x)) (sym f.result)),
)

-- The step has one call, of that tool, with an input of that JSON text.
abbrev pub IsCall : String → String → Step → Type 0
IsCall name text s =
    (tc : ToolCall) × (s.tool_calls ≡ tc ∷ []) × (tc.tool_name ≡ name) × (stringify tc.input ≡ text)

same_call-IsCall :
    (first : ToolCall) (s : Step)
    → eqb (length s.tool_calls) 1 ≡ true
    → same_call first s ≡ true
    → IsCall first.tool_name (stringify first.input) s
unfolding same_call
same_call-IsCall first s one h = go s.tool_calls refl
  where
    go :
        (tcs : List ToolCall)
        → s.tool_calls ≡ tcs
        → IsCall first.tool_name (stringify first.input) s
    go [] e = absurd (ground (arith, e, one))
    go (tc ∷ []) e = (
      tc,
      e,
      ground (arith, e, h, eq_iff tc.tool_name first.tool_name),
      ground (arith, e, h, eq_iff (stringify tc.input) (stringify first.input)),
    )
    go (tc ∷ td ∷ tcs) e = absurd (ground (arith, e, one))

abbrev not_one : Step → Bool
not_one s = not (eqb (length s.tool_calls) 1)

recent-IsCall :
    (first : ToolCall) (recent : List Step)
    → any not_one recent ≡ false
    → all (same_call first) recent ≡ true
    → All (IsCall first.tool_name (stringify first.input)) recent
recent-IsCall first [] h k = tt
recent-IsCall first (s ∷ recent) h k = (
  same_call-IsCall first s (ground arith) (ground arith),
  recent-IsCall first recent (ground arith) (ground arith),
)

recent_of_IsCall :
    (first : ToolCall) (name text : String) (recent : List Step)
    → first.tool_name ≡ name
    → stringify first.input ≡ text
    → All (IsCall name text) recent
    → (any not_one recent ≡ false) × (all (same_call first) recent ≡ true)
unfolding same_call
recent_of_IsCall first name text [] p q h = (refl, refl)
recent_of_IsCall first name text (s ∷ recent) p q ((tc, e, n, t), h) = ground (
  arith,
  recent_of_IsCall first name text recent p q h,
  eq_iff tc.tool_name first.tool_name,
  eq_iff (stringify tc.input) (stringify first.input),
)

abbrev pub Repeats : List Step → Type 0
Repeats recent = (name : String) × (text : String) × All (IsCall name text) recent

abbrev verdict : List Step → Option Bool
verdict recent =
    if any not_one recent
    then some false
    else elim (first_call recent) [ none ↦ none | some first ↦ some (all (same_call first) recent) ]

verdict_sound : (recent : List Step) → verdict recent ≡ some true → Repeats recent
verdict_sound recent h = elim (Option-cases (first_call recent)) [
  | inl e ↦ absurd (ground (arith, e, h))
  | inr (tc, e) ↦ (
    tc.tool_name,
    stringify tc.input,
    recent-IsCall tc recent (ground (arith, e, h)) (ground (arith, e, h)),
  )
]

verdict_complete :
    (recent : List Step) → 1 ≤ length recent → Repeats recent → verdict recent ≡ some true
unfolding first_call
verdict_complete [] pos h = absurd (omega arith)
verdict_complete (s ∷ recent) pos (name, text, ((tc, e, n, t), h)) =
    ground (arith, recent_of_IsCall tc name text (s ∷ recent) n t ((tc, e, n, t), h))

-- With a positive threshold, `doomLoop` fires exactly when there are `threshold` steps at the end
-- that each make one call, all of the same tool with an input of the same JSON text.
pub doom_loop-fires_iff :
    (threshold : ℕ) (steps : List Step)
    → 1 ≤ threshold
    → ((doom_loop threshold).check steps ≡ some true)
      ↔ ((threshold ≤ length steps) × Repeats (drop (length steps - threshold) steps))
unfolding doom_loop
doom_loop-fires_iff threshold steps pos =
    let recent = drop (length steps - threshold) steps in
    let size = length-drop (length steps - threshold) steps in
    (
      λ h. (ground arith, verdict_sound recent (ground arith)),
      λ (enough, same). ground (arith, verdict_complete recent (omega (arith, size)) same),
    )

-- ===== src/Compaction/Cut.antt =====
-- Where `findCompactionCut` cuts, and how `planCompaction` divides the messages there.
use agentlayer.Prelude.{
  ℕ, zero, suc, ◌+◌, ◌-◌, ◌≤◌, ◌<◌, ◌≡◌, ◌≢◌, ◌∙◌, refl, ap, sym, String, true, false, Option, none,
  some, inl, inr, List, [], ◌∷◌, ◌++◌, max, arith, leb, eqb, All, All-append, all_iff, append-nil,
  Option-cases, Bool-cases, length, drop, take, take-append-drop, get_elem?, eqb→eq,
}
use mathlib.Core.Path.{subst}
use Prim.Native.Nat.add
use native.Mathlib.Nat.{zero-add}
use agentlayer.Messages.{ModelMessage}
use agentlayer.Compaction.{
  tool_call_ids, tool_result_ids, flat_ids, has, is_valid_cut_role, tail_tokens, find_boundary,
  count_up, count_down, is_cut, first_cut, find_compaction_cut, CompactionPlan, split_start,
  plan_at, plan_compaction,
}

-- What a cut promises of the messages that stay: they begin with a user or assistant message, every
-- tool result has its call among them, and so has every required call.
pub record IsCoherent (required : List String) (kept : List ModelMessage) : Type 0 where
  pub first : ModelMessage
  pub rest : List ModelMessage
  pub split : kept ≡ first ∷ rest
  pub role : is_valid_cut_role first ≡ true
  pub results :
      All (λ i. has i (flat_ids tool_call_ids kept) ≡ true) (flat_ids tool_result_ids kept)
  pub pending : All (λ i. has i (flat_ids tool_call_ids kept) ≡ true) required

drop-get_elem? :
    (ms : List ModelMessage) (i : ℕ) (m : ModelMessage)
    → get_elem? ms i ≡ some m
    → (rest : List ModelMessage) × (drop i ms ≡ m ∷ rest)
drop-get_elem? [] i m h = absurd (cc)
drop-get_elem? (x ∷ ms) zero m h = (ms, ground arith)
drop-get_elem? (x ∷ ms) (suc i) m h = drop-get_elem? ms i m h

is_cut-IsCoherent :
    (ms : List ModelMessage) (required : List String) (i : ℕ)
    → is_cut ms required i ≡ true
    → IsCoherent required (drop i ms)
unfolding is_cut
is_cut-IsCoherent ms required i h = elim (Option-cases (get_elem? ms i)) [
  | inl e ↦ absurd (ground (arith, e, h))
  | inr (m, e) ↦
      let (rest, split) = drop-get_elem? ms i m e in
      let kept = drop i ms in
      record {
        first = m;
        rest = rest;
        split = split;
        role = ground (arith, e, h);
        results =
            (all_iff (λ j. has j (flat_ids tool_call_ids kept)) (flat_ids tool_result_ids kept)).0
              (ground (arith, e, h));
        pending =
            (all_iff (λ j. has j (flat_ids tool_call_ids kept)) required).0 (ground (arith, e, h));
      }
]

first_cut_sound :
    (ms : List ModelMessage) (required : List String) (is : List ℕ)
    → first_cut ms required is ≢ 0
    → is_cut ms required (first_cut ms required is) ≡ true
unfolding first_cut
first_cut_sound ms required [] h = absurd (h refl)
first_cut_sound ms required (i ∷ is) h = ground (arith, first_cut_sound ms required is)

abbrev candidates : List ModelMessage → ℕ → List ℕ
candidates ms b = count_up (suc b) (length ms - suc b) ++ count_down b

find_compaction_cut-is_cut :
    (ms : List ModelMessage) (keep_recent : ℕ) (required : List String)
    → find_compaction_cut ms keep_recent required ≢ 0
    → is_cut ms required (find_compaction_cut ms keep_recent required) ≡ true
unfolding find_compaction_cut
find_compaction_cut-is_cut ms keep_recent required h = go (find_boundary keep_recent ms) refl
  where
    go :
        (o : Option ℕ)
        → find_boundary keep_recent ms ≡ o
        → is_cut ms required (find_compaction_cut ms keep_recent required) ≡ true
    go none e = absurd (ground (arith, e, h))
    go (some zero) e = absurd (ground (arith, e, h))
    go (some (suc b)) e = ground (arith, e, h, first_cut_sound ms required (candidates ms b))

-- A cut other than 0 leaves a coherent tail.
pub find_compaction_cut-IsCoherent :
    (ms : List ModelMessage) (keep_recent : ℕ) (required : List String)
    → find_compaction_cut ms keep_recent required ≢ 0
    → IsCoherent required (drop (find_compaction_cut ms keep_recent required) ms)
find_compaction_cut-IsCoherent ms keep_recent required h =
    is_cut-IsCoherent ms required _ (find_compaction_cut-is_cut ms keep_recent required h)

first_cut_none :
    (ms : List ModelMessage) (required : List String) (is : List ℕ)
    → All (λ i. 1 ≤ i) is
    → first_cut ms required is ≡ 0
    → All (λ i. is_cut ms required i ≡ false) is
unfolding first_cut
first_cut_none ms required [] h k = tt
first_cut_none ms required (i ∷ is) (p, h) k = ground (arith, first_cut_none ms required is h)

module _ (P : ℕ → Type 0) where
  All-count_up : (n from i : ℕ) → All P (count_up from n) → from ≤ i → i < from + n → P i
  unfolding count_up
  All-count_up zero from i h p q = absurd (omega arith)
  All-count_up (suc n) from i (here, h) p q = elim (Bool-cases (eqb from i)) [
    | inl e ↦ rw (← (eqb→eq from i e)) here
    | inr e ↦ All-count_up n (from + 1) i h (ground arith) (omega arith)
  ]

  All-count_down : (n i : ℕ) → All P (count_down n) → 1 ≤ i → i ≤ n → P i
  unfolding count_down
  All-count_down zero i h p q = absurd (omega arith)
  All-count_down (suc n) i (here, h) p q = elim (Bool-cases (eqb (suc n) i)) [
    | inl e ↦ rw (← (eqb→eq (suc n) i e)) here
    | inr e ↦ All-count_down n i h p (ground arith)
  ]

All-split {ℓ} : (P : ℕ → Type ℓ) (xs ys : List ℕ) → All P (xs ++ ys) → All P xs × All P ys
All-split P [] ys h = (tt, h)
All-split P (x ∷ xs) ys (p, h) = let (a, b) = All-split P xs ys h in ((p, a), b)

count_up_pos : (n from : ℕ) → 1 ≤ from → All (λ i. 1 ≤ i) (count_up from n)
unfolding count_up
count_up_pos zero from h = tt
count_up_pos (suc n) from h = (h, count_up_pos n (from + 1) (omega arith))

count_down_pos : (n : ℕ) → All (λ i. 1 ≤ i) (count_down n)
unfolding count_down
count_down_pos zero = tt
count_down_pos (suc n) = (omega arith, count_down_pos n)

find_boundary-none :
    (keep_recent : ℕ) (ms : List ModelMessage)
    → find_boundary keep_recent ms ≡ none
    → tail_tokens ms < max 1 keep_recent
unfolding find_boundary
find_boundary-none keep_recent [] h = omega arith
find_boundary-none keep_recent (m ∷ ms) h = ground arith

-- The boundary lies in the list; the messages from there on reach the budget, and those behind it
-- do not.
find_boundary_bounds :
    (keep_recent : ℕ) (ms : List ModelMessage) (b : ℕ)
    → find_boundary keep_recent ms ≡ some b
    → (b < length ms)
      × (max 1 keep_recent ≤ tail_tokens (drop b ms))
      × (tail_tokens (drop (suc b) ms) < max 1 keep_recent)
unfolding find_boundary
find_boundary_bounds keep_recent [] b h = absurd (cc)
find_boundary_bounds keep_recent (m ∷ ms) b h =
    go (find_boundary keep_recent ms) refl b h (find_boundary_bounds keep_recent ms)
  where
    go :
        (o : Option ℕ)
        → find_boundary keep_recent ms ≡ o
        → (b : ℕ) → find_boundary keep_recent (m ∷ ms) ≡ some b
        → ((c : ℕ)
            → find_boundary keep_recent ms ≡ some c
            → (c < length ms)
              × (max 1 keep_recent ≤ tail_tokens (drop c ms))
              × (tail_tokens (drop (suc c) ms) < max 1 keep_recent))
        → (b < length (m ∷ ms))
          × (max 1 keep_recent ≤ tail_tokens (drop b (m ∷ ms)))
          × (tail_tokens (drop (suc b) (m ∷ ms)) < max 1 keep_recent)
    go (some j) e zero k ih = absurd (ground (arith, e, k))
    go (some j) e (suc b) k ih = let (x, y, z) = ih b (ground (arith, e, k)) in (omega arith, y, z)
    go none e zero k ih =
        (omega arith, ground (arith, e, k), ground (arith, find_boundary-none keep_recent ms e))
    go none e (suc b) k ih = absurd (ground (arith, e, k))

-- Where the recent messages reach their budget behind the first message, 0 is returned only if no
-- index from 1 on is a cut.
pub find_compaction_cut-exhausts :
    (ms : List ModelMessage) (keep_recent : ℕ) (required : List String) (b : ℕ)
    → find_boundary keep_recent ms ≡ some (suc b)
    → find_compaction_cut ms keep_recent required ≡ 0
    → (i : ℕ) → 1 ≤ i
    → i < length ms
    → is_cut ms required i ≡ false
unfolding find_compaction_cut
find_compaction_cut-exhausts ms keep_recent required b bound h i p q =
    let (inside, reached, short) = find_boundary_bounds keep_recent ms (suc b) bound in
    let up = count_up (suc b) (length ms - suc b) in
    let none_cut : first_cut ms required (up ++ count_down b) ≡ 0 =
      ground (arith, bound, h, inside, p, q) in
    let pos : All (λ j. 1 ≤ j) (up ++ count_down b) =
      All-append (λ j. 1 ≤ j) up (count_down b)
        (count_up_pos (length ms - suc b) (suc b) (omega arith)) (count_down_pos b) in
    let (above, below) =
      All-split (λ j. is_cut ms required j ≡ false) up (count_down b)
        (first_cut_none ms required (up ++ count_down b) pos none_cut) in
    elim (Bool-cases (leb i b)) [
      | inl low ↦ All-count_down (λ j. is_cut ms required j ≡ false) b i below p (ground arith)
      | inr high ↦
          All-count_up (λ j. is_cut ms required j ≡ false) (length ms - suc b) (suc b) i above
            (ground arith) (omega arith)
    ]

boundary_chosen :
    (ms : List ModelMessage) (keep_recent : ℕ) (required : List String) (b n : ℕ)
    → length ms - suc b ≡ n
    → find_boundary keep_recent ms ≡ some (suc b)
    → is_cut ms required (suc b) ≡ true
    → suc b < length ms
    → find_compaction_cut ms keep_recent required ≡ suc b
unfolding find_compaction_cut
boundary_chosen ms keep_recent required b zero e bound cut inside = absurd (omega arith)
boundary_chosen ms keep_recent required b (suc n) e bound cut inside = ground (arith, e, bound, cut)

-- Where the boundary lies behind the first message and is itself a cut, it is the one chosen: what
-- stays reaches the budget of recent tokens, and would not without its first message.
pub find_compaction_cut-boundary :
    (ms : List ModelMessage) (keep_recent : ℕ) (required : List String) (b : ℕ)
    → find_boundary keep_recent ms ≡ some (suc b)
    → is_cut ms required (suc b) ≡ true
    → (find_compaction_cut ms keep_recent required ≡ suc b)
      × (max 1 keep_recent ≤ tail_tokens (drop (suc b) ms))
      × (tail_tokens (drop (suc (suc b)) ms) < max 1 keep_recent)
find_compaction_cut-boundary ms keep_recent required b bound cut =
    let (inside, reached, short) = find_boundary_bounds keep_recent ms (suc b) bound in
    (
      boundary_chosen ms keep_recent required b (length ms - suc b) refl bound cut inside,
      reached,
      short,
    )

take-nil : (n : ℕ) → take {A = ModelMessage} n [] ≡ []
take-nil zero = refl
take-nil (suc n) = refl

take-take-drop :
    (start n : ℕ) (ms : List ModelMessage)
    → take start ms ++ take n (drop start ms) ≡ take (start + n) ms
take-take-drop zero n ms = rw zero-add
take-take-drop (suc start) n [] = take-nil n ∙ sym (take-nil (suc start + n))
take-take-drop (suc start) n (m ∷ ms) =
    rw (add.suc start n) (ap (λ xs. m ∷ xs) (take-take-drop start n ms))

pub record IsDivision (ms : List ModelMessage) (required : List String) (plan : CompactionPlan)
    : Type 0 where
  pub whole : plan.replaced_messages ++ plan.retained_messages ≡ ms
  pub replaced : plan.history_messages ++ plan.turn_prefix_messages ≡ plan.replaced_messages
  pub some_replaced : 1 ≤ plan.cut_index
  pub coherent : IsCoherent required plan.retained_messages

split_start_lt :
    (ms : List ModelMessage) (cut start : ℕ) → split_start ms cut ≡ some start → start < cut
unfolding split_start
split_start_lt ms cut start h = ground arith

plan_at-IsDivision :
    (ms : List ModelMessage) (required : List String) (cut : ℕ)
    → 1 ≤ cut
    → IsCoherent required (drop cut ms)
    → IsDivision ms required (plan_at ms cut)
unfolding plan_at
plan_at-IsDivision ms required cut pos c = go (split_start ms cut) refl
  where
    go :
        (o : Option ℕ)
        → split_start ms cut ≡ o
        → IsDivision ms required (elim o [
          | none ↦ record {
            cut_index = cut;
            history_messages = take cut ms;
            turn_prefix_messages = [];
            is_split_turn = false;
            replaced_messages = take cut ms;
            retained_messages = drop cut ms;
          }
          | some start ↦ record {
            cut_index = cut;
            history_messages = take start ms;
            turn_prefix_messages = take (cut - start) (drop start ms);
            is_split_turn = true;
            replaced_messages = take cut ms;
            retained_messages = drop cut ms;
          }
        ])
    go none e = record {
      whole = take-append-drop cut ms;
      replaced = append-nil (take cut ms);
      some_replaced = pos;
      coherent = c;
    }
    go (some start) e = record {
      whole = take-append-drop cut ms;
      replaced =
          take-take-drop start (cut - start) ms
          ∙ ap (λ n. take n ms) (omega (arith, split_start_lt ms cut start e));
      some_replaced = pos;
      coherent = c;
    }

-- A plan divides the messages: what is replaced and what is retained make up the conversation, and
-- the history and the prefix of a split turn make up what is replaced. The cut is not at 0, and
-- what is retained is coherent: it begins with a user or assistant message, and holds the call of
-- each of its tool results and each required call.
pub plan_compaction-IsDivision :
    (ms : List ModelMessage) (keep_recent : ℕ) (required : List String) (plan : CompactionPlan)
    → plan_compaction ms keep_recent required ≡ some plan
    → IsDivision ms required plan
unfolding plan_compaction
plan_compaction-IsDivision ms keep_recent required plan h =
    let cut = find_compaction_cut ms keep_recent required in
    elim (Bool-cases (eqb cut 0)) [
      | inl e ↦ absurd (ground (arith, e, h))
      | inr e ↦
          let same : plan_at ms cut ≡ plan = ground (arith, e, h) in
          let moved : cut ≢ 0 = λ z. ground (arith, e, z) in
          subst (IsDivision ms required) same (
            plan_at-IsDivision ms required cut (omega (arith, moved))
              (find_compaction_cut-IsCoherent ms keep_recent required moved))
    ]

-- ===== src/Prelude/Options.antt =====
-- `a?.b` and `a ?? b` on optional values.
use mathlib.Core.Path.{◌≡◌, refl}
use mathlib.Core.Option
use mathlib.Core.Option.{Option, none, some}

abbrev pub or_else {ℓ} : {A : Type ℓ} → Option A → Option A → Option A
or_else none b = b
or_else (some a) b = some a

abbrev pub or_value {ℓ} : {A : Type ℓ} → Option A → A → A
or_value none b = b
or_value (some a) b = a

abbrev pub bind {ℓ κ} : {A : Type ℓ} {B : Type κ} → Option A → (A → Option B) → Option B
bind none k = none
bind (some a) k = k a

module _ {ℓ} {A : Type ℓ} (f : A → A) where
  pub or_else-map :
      (a b : Option A) → or_else (Option.map f a) (Option.map f b) ≡ Option.map f (or_else a b)
  or_else-map none b = refl
  or_else-map (some a) b = refl

  pub bind-map :
      (o : Option A) (k k' : A → Option A)
      → ((a : A) → k' (f a) ≡ Option.map f (k a))
      → bind (Option.map f o) k' ≡ Option.map f (bind o k)
  bind-map none k k' h = refl
  bind-map (some a) k k' h = h a

-- ===== src/Prelude/Records.antt =====
-- A JavaScript object used as a map: its own entries in the order of insertion, keys compared as
-- texts. A write to a present key keeps its place, and a new key comes last.
use Prim.Native.String.{String}
use mathlib.Core.Path.{◌≡◌, refl}
use mathlib.Core.Option.{Option, none, some}
use mathlib.Core.List.{List, [], ◌∷◌}
use native.Mathlib.Omega.{arith}
use text.Mathlib.Text.{◌==◌}
use text.Mathlib.TextEquality.{eq_iff}
use agentlayer.Prelude.Tests.{if◌then◌else◌}

module _ {ℓ} {V : Type ℓ} where
  -- obj[key]
  unfoldable pub lookup : String → List (String × V) → Option V
  lookup key [] = none
  lookup key (entry ∷ entries) = if entry.0 == key then some entry.1 else lookup key entries

  -- obj[key] = value
  unfoldable pub insert : String → V → List (String × V) → List (String × V)
  insert key value [] = (key, value) ∷ []
  insert key value (entry ∷ entries) =
      let later = insert key value entries in
      if entry.0 == key then (entry.0, value) ∷ entries else entry ∷ later

  -- delete obj[key]
  unfoldable pub remove : String → List (String × V) → List (String × V)
  remove key [] = []
  remove key (entry ∷ entries) =
      let rest = remove key entries in if entry.0 == key then rest else entry ∷ rest

  -- Reading at `asked` after a write or a deletion at `key`.
  module _ (key asked : String) where
    pub lookup-insert :
        (value : V) (entries : List (String × V))
        → lookup asked (insert key value entries)
          ≡ (if key == asked then some value else lookup asked entries)
    unfolding lookup insert
    lookup-insert value [] = refl
    lookup-insert value (entry ∷ entries) = ground (
      arith,
      lookup-insert value entries,
      eq_iff entry.0 key,
      eq_iff entry.0 asked,
      eq_iff key asked,
    )

    pub lookup-remove :
        (entries : List (String × V))
        → lookup asked (remove key entries) ≡ (if key == asked then none else lookup asked entries)
    unfolding lookup remove
    lookup-remove [] = ground arith
    lookup-remove (entry ∷ entries) =
        ground
          (arith, lookup-remove entries, eq_iff entry.0 key, eq_iff entry.0 asked, eq_iff key asked)

-- ===== src/Prelude/Dict.antt =====
-- A Go map with text keys, as an association list; `delete` and assignment keep one entry a key.
use Prim.Native.String.{String}
use mathlib.Core.Path.{◌≡◌, refl}
use mathlib.Core.Option.{Option, none, some}
use mathlib.Core.List.{List, [], ◌∷◌}
use native.Mathlib.Omega.{arith}
use ai_governance_orchestrat.Prelude.Tests.{◌==◌, eq_iff, eq_refl, if◌then◌else◌}

module _ {ℓ} {Value : Type ℓ} where
  -- `entries[key]`
  unfoldable pub lookup : String → List (String × Value) → Option Value
  lookup key [] = none
  lookup key ((own, value) ∷ entries) =
      let later = lookup key entries in if own == key then some value else later

  -- `entries[key] = value`
  unfoldable pub insert : String → Value → List (String × Value) → List (String × Value)
  insert key value [] = (key, value) ∷ []
  insert key value ((own, old) ∷ entries) =
      let later = insert key value entries in
      if own == key then (key, value) ∷ entries else (own, old) ∷ later

  -- `delete(entries, key)`
  unfoldable pub remove : String → List (String × Value) → List (String × Value)
  remove key [] = []
  remove key ((own, value) ∷ entries) =
      let later = remove key entries in if own == key then later else (own, value) ∷ later

  pub lookup-insert :
      (key other : String) (value : Value) (entries : List (String × Value))
      → lookup other (insert key value entries)
        ≡ (if key == other then some value else lookup other entries)
  unfolding lookup insert
  lookup-insert key other value [] = refl
  lookup-insert key other value ((own, old) ∷ entries) =
      let tail = lookup-insert key other value entries in
      ground (arith, tail, eq_iff own key, eq_iff own other, eq_iff key other)

  pub lookup-remove :
      (key other : String) (entries : List (String × Value))
      → lookup other (remove key entries) ≡ (if key == other then none else lookup other entries)
  unfolding lookup remove
  lookup-remove key other [] = ground arith
  lookup-remove key other ((own, value) ∷ entries) =
      let tail = lookup-remove key other entries in
      ground (arith, tail, eq_iff own key, eq_iff own other, eq_iff key other)

  pub lookup-insert_self :
      (key : String) (value : Value) (entries : List (String × Value))
      → lookup key (insert key value entries) ≡ some value
  lookup-insert_self key value entries = simp (lookup-insert, eq_refl)

pub ruleset dict_laws = (lookup-insert, lookup-remove)

-- ===== src/Base/Assoc.antt =====
-- `std::map` with numbers for keys, as an association list; the programs never walk one.
use Prim.Native.Nat.{ℕ}
use mathlib.Core.Path.{◌≡◌}
use mathlib.Core.Bool.{true, false}
use mathlib.Core.Option.{Option, none, some}
use mathlib.Core.List.{List, [], ◌∷◌}
use native.Mathlib.Omega.{arith}
use eng_project.Base.Tests.{◌==◌, if◌then◌else◌}

module _ {ℓ} {V : Type ℓ} where
  -- `map.erase(key)`
  unfoldable pub erase : ℕ → List (ℕ × V) → List (ℕ × V)
  erase key [] = []
  erase key ((at_key, value) ∷ entries) = elim (key == at_key) [
    | true ↦ erase key entries
    | false ↦ (at_key, value) ∷ erase key entries
  ]

  -- `map.find(key)`
  unfoldable pub lookup : ℕ → List (ℕ × V) → Option V
  lookup key [] = none
  lookup key ((at_key, value) ∷ entries) = elim (key == at_key) [
    | true ↦ some value
    | false ↦ lookup key entries
  ]

  -- `map[key] = value`
  unfoldable pub insert : ℕ → V → List (ℕ × V) → List (ℕ × V)
  insert key value [] = (key, value) ∷ []
  insert key value ((at_key, old) ∷ entries) = elim (key == at_key) [
    | true ↦ (at_key, value) ∷ entries
    | false ↦ (at_key, old) ∷ insert key value entries
  ]

  pub lookup-erase :
      (key other : ℕ) (entries : List (ℕ × V))
      → lookup other (erase key entries) ≡ (if key == other then none else lookup other entries)
  unfolding lookup erase
  lookup-erase key other [] = ground arith
  lookup-erase key other ((at_key, value) ∷ entries) =
      ground (arith, lookup-erase key other entries)

  pub lookup-insert :
      (key other : ℕ) (value : V) (entries : List (ℕ × V))
      → lookup other (insert key value entries)
        ≡ (if key == other then some value else lookup other entries)
  unfolding lookup insert
  lookup-insert key other value [] = ground arith
  lookup-insert key other value ((at_key, old) ∷ entries) =
      ground (arith, lookup-insert key other value entries)

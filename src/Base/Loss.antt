-- ===== src/Base/Loss.antt =====
-- A network that loses some of what is sent, and keeps the order.
use Prim.Native.Nat.{ℕ, zero, suc, ◌<◌, ◌≤◌}
use mathlib.Core.Path.{◌≡◌, refl, ap}
use mathlib.Core.Bool.{Bool, true, false}
use mathlib.Core.List.{List, [], ◌∷◌, map}
use native.Mathlib.Omega.{arith}
use eng_project.Base.Lists.{length, All}

module _ {ℓ} {A : Type ℓ} where
  -- What is left if the network loses those that `kept` does not keep.
  abbrev pub survive : (kept : List Bool) → List A → List A
  survive [] xs = xs
  survive (_ ∷ kept) [] = []
  survive (true ∷ kept) (x ∷ xs) = x ∷ survive kept xs
  survive (false ∷ kept) (x ∷ xs) = survive kept xs

-- Whether any of the first `n` is lost.
abbrev pub loses : (kept : List Bool) → (n : ℕ) → Bool
loses [] n = false
loses (_ ∷ kept) zero = false
loses (true ∷ kept) (suc n) = loses kept n
loses (false ∷ kept) (suc n) = true

module _ {ℓ} {A : Type ℓ} where
  pub survive_whole :
      (kept : List Bool) (xs : List A) → loses kept (length xs) ≡ false → survive kept xs ≡ xs
  survive_whole [] xs e = refl
  survive_whole (true ∷ kept) [] e = refl
  survive_whole (false ∷ kept) [] e = refl
  survive_whole (true ∷ kept) (x ∷ xs) e = ap (◌∷◌ x) (survive_whole kept xs e)
  survive_whole (false ∷ kept) (x ∷ xs) e = cc

  length-survive-le : (kept : List Bool) (xs : List A) → length (survive kept xs) ≤ length xs
  length-survive-le [] xs = omega arith
  length-survive-le (true ∷ kept) [] = omega arith
  length-survive-le (false ∷ kept) [] = omega arith
  length-survive-le (true ∷ kept) (x ∷ xs) = omega (arith, length-survive-le kept xs)
  length-survive-le (false ∷ kept) (x ∷ xs) = omega (arith, length-survive-le kept xs)

  pub length-survive-lt :
      (kept : List Bool) (xs : List A)
      → loses kept (length xs) ≡ true
      → length (survive kept xs) < length xs
  length-survive-lt [] xs e = cc
  length-survive-lt (true ∷ kept) [] e = cc
  length-survive-lt (false ∷ kept) [] e = cc
  length-survive-lt (true ∷ kept) (x ∷ xs) e = omega (arith, length-survive-lt kept xs e)
  length-survive-lt (false ∷ kept) (x ∷ xs) e = omega (arith, length-survive-le kept xs)

  pub All-survive {κ} :
      (P : A → Type κ) (kept : List Bool) (xs : List A) → All P xs → All P (survive kept xs)
  All-survive P [] xs h = h
  All-survive P (true ∷ kept) [] h = tt
  All-survive P (false ∷ kept) [] h = tt
  All-survive P (true ∷ kept) (x ∷ xs) h = (h.0, All-survive P kept xs h.1)
  All-survive P (false ∷ kept) (x ∷ xs) h = All-survive P kept xs h.1

  pub survive-map {κ} :
      {B : Type κ} (f : A → B) (kept : List Bool) (xs : List A)
      → survive kept (map f xs) ≡ map f (survive kept xs)
  survive-map f [] xs = refl
  survive-map f (true ∷ kept) [] = refl
  survive-map f (false ∷ kept) [] = refl
  survive-map f (true ∷ kept) (x ∷ xs) = ap (◌∷◌ (f x)) (survive-map f kept xs)
  survive-map f (false ∷ kept) (x ∷ xs) = survive-map f kept xs

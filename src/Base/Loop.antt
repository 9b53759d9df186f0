-- ===== src/Base/Loop.antt =====
-- A loop whose rounds may leave it by `break`. A round takes the state and what it meets, and gives
-- the new state and what it has done.
use Prim.Native.Nat.{ℕ, ◌+◌}
use mathlib.Core.Path.{◌≡◌, refl, sym, ap, ◌∙◌}
use mathlib.Core.Logic.{inl, inr}
use mathlib.Core.Bool.{Bool, true, false}
use mathlib.Core.List.{List, [], ◌∷◌, ◌++◌, map, append_assoc}
use native.Mathlib.Omega.{arith}
use eng_project.Base.Tests.{if◌then◌else◌, Bool-cases}
use eng_project.Base.Lists.{All}

pub record Turn (S E : Type 0) : Type 0 where
  pub out : Bool
  pub state : S
  pub events : List E

-- The round goes on to the next, or is left by `break`.
abbrev pub next : {S E : Type 0} → S → List E → Turn S E
next s es = record { out = false; state = s; events = es }

abbrev pub break : {S E : Type 0} → S → List E → Turn S E
break s es = record { out = true; state = s; events = es }

-- The rounds that begin before the flag of the loop is set from outside.
unfoldable pub run : {S R E : Type 0} → (S → R → Turn S E) → S → List R → Turn S E
run body s [] = next s []
run {S} {R} {E} body s (r ∷ rs) =
    let now = body s r in
    let rest = run body now.state rs in
    let all : Turn S E = record rest { events = now.events ++ rest.events } in
    if now.out then now else all

module _ {S R E : Type 0} (body : S → R → Turn S E) where
  -- What no round does, the loop does not do.
  pub run-none :
      (f : List E → ℕ)
      → f [] ≡ 0
      → ((es fs : List E) → f (es ++ fs) ≡ f es + f fs)
      → ((s : S) (r : R) → f (body s r).events ≡ 0)
      → (s : S) (rs : List R) → f (run body s rs).events ≡ 0
  unfolding run
  run-none f nil f-append each s [] = nil
  run-none f nil f-append each s (r ∷ rs) = elim (Bool-cases (body s r).out) [
    | inl out ↦ rw out (each s r)
    | inr goes_on ↦ rw goes_on (
        f-append (body s r).events _
        ∙ omega (arith, each s r, run-none f nil f-append each (body s r).state rs))
  ]

  -- What each round does once, the loop does in order, if no round leaves it.
  pub run-map :
      {P : S → Type 0} {Q : R → Type 0} {B : Type 0} (f : List E → List B) (k : R → B)
      → f [] ≡ []
      → ((es fs : List E) → f (es ++ fs) ≡ f es ++ f fs)
      → ((s : S) (r : R)
          → P s
          → Q r
          → ((body s r).out ≡ false) × P (body s r).state × (f (body s r).events ≡ k r ∷ []))
      → (s : S) (rs : List R) → P s
      → All Q rs
      → ((run body s rs).out ≡ false)
        × P (run body s rs).state
        × (f (run body s rs).events ≡ map k rs)
  unfolding run
  run-map f k nil f-append each s [] p q = (refl, p, nil)
  run-map f k nil f-append each s (r ∷ rs) p q =
      let (goes_on, kept, did) = each s r p q.0 in
      let (out, after, did_all) = run-map f k nil f-append each (body s r).state rs kept q.1 in
      rw goes_on (out, after, f-append (body s r).events _ ∙ rw (did, did_all))

  -- Rounds that do not leave the loop, and then others.
  pub run-append :
      (s : S) (rs more : List R)
      → (run body s rs).out ≡ false
      → ((run body s (rs ++ more)).events
          ≡ (run body s rs).events ++ (run body (run body s rs).state more).events)
        × ((run body s (rs ++ more)).state ≡ (run body (run body s rs).state more).state)
        × ((run body s (rs ++ more)).out ≡ (run body (run body s rs).state more).out)
  unfolding run
  run-append s [] more e = (refl, refl, refl)
  run-append s (r ∷ rs) more e = elim (Bool-cases (body s r).out) [
    | inl out ↦ let bad : true ≡ false = rw out at e in cc
    | inr goes_on ↦
        let (events, state, out) = run-append (body s r).state rs more (rw goes_on at e) in
        rw goes_on (
          ap (◌++◌ (body s r).events) events ∙ sym (append_assoc (body s r).events _ _),
          state,
          out,
        )
  ]

  -- One round that goes on, and then others.
  pub run_next :
      (s : S) (r : R) (rs : List R)
      → (body s r).out ≡ false
      → ((run body s (r ∷ rs)).events ≡ (body s r).events ++ (run body (body s r).state rs).events)
        × ((run body s (r ∷ rs)).state ≡ (run body (body s r).state rs).state)
  unfolding run
  run_next s r rs goes_on = rw goes_on (refl, refl)

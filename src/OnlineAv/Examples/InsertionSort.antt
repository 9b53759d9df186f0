-- ===== src/OnlineAv/Examples/InsertionSort.antt =====
-- A sort of fragments by index: what `std::sort` promises can be had.
use native.Mathlib.Bridge.{le_prop}
use mathlib.Core.Logic.Or
use mathlib.Core.List.{Pairwise, Mem, mem-cons, not-mem-nil}
use mathlib.Core.List.Perm
use eng_project.Base.{
  Bool-cases, inl, inr, List, [], ◌∷◌, Perm, leb, leb→le, if◌then◌else◌, subst, sym, arith,
}
use eng_project.OnlineAv.Fragment.{VideoFragment}
use eng_project.OnlineAv.VideoPlay.{ByIndex, IsSort}

put : VideoFragment → List VideoFragment → List VideoFragment
put f [] = f ∷ []
put f (g ∷ gs) = if leb f.fragment_i g.fragment_i then f ∷ g ∷ gs else g ∷ put f gs

pub insertion_sort : List VideoFragment → List VideoFragment
insertion_sort [] = []
insertion_sort (f ∷ fs) = put f (insertion_sort fs)

put-perm : (f : VideoFragment) (gs : List VideoFragment) → Perm (put f gs) (f ∷ gs)
unfolding put
put-perm f [] = Perm.rfl
put-perm f (g ∷ gs) = elim (Bool-cases (leb f.fragment_i g.fragment_i)) [
  | inl le ↦ rw le Perm.rfl
  | inr gt ↦ rw gt (Perm.trans (Perm.cons g (put-perm f gs)) (Perm.swap f g gs))
]

insertion_sort-perm : (fs : List VideoFragment) → Perm (insertion_sort fs) fs
unfolding insertion_sort
insertion_sort-perm [] = Perm.rfl
insertion_sort-perm (f ∷ fs) =
    Perm.trans (put-perm f (insertion_sort fs)) (Perm.cons f (insertion_sort-perm fs))

abbrev IsBelow : VideoFragment → List VideoFragment → Type 0
IsBelow f gs = (x : VideoFragment) → Mem x gs → ByIndex f x

IsBelow-cons :
    (f g : VideoFragment) (gs : List VideoFragment)
    → ByIndex f g
    → IsBelow f gs
    → IsBelow f (g ∷ gs)
IsBelow-cons f g gs le h x m =
    Or.elim le_prop (mem-cons.0 m) (λ e. subst (ByIndex f) (sym e) le) (h x)

put-sorted :
    (f : VideoFragment) (gs : List VideoFragment)
    → Pairwise ByIndex gs
    → Pairwise ByIndex (put f gs)
unfolding put
put-sorted f [] s = Pairwise.cons (λ x m. absurd (not-mem-nil m)) Pairwise.nil
put-sorted f (g ∷ gs) (Pairwise.cons h s) = elim (Bool-cases (leb f.fragment_i g.fragment_i)) [
  | inl le ↦ rw le (
      Pairwise.cons
        (IsBelow-cons f g gs (ground arith)
          (λ x m. omega (arith, h x m, leb→le f.fragment_i g.fragment_i le)))
        (Pairwise.cons h s))
  | inr gt ↦ rw gt (
      Pairwise.cons
        (λ x m. IsBelow-cons g f gs (ground arith) h x ((Perm.mem_iff (put-perm f gs)).0 m))
        (put-sorted f gs s))
]

pub insertion_sort-IsSort : IsSort insertion_sort
unfolding insertion_sort
insertion_sort-IsSort = record { perm = insertion_sort-perm; sorted = sorted }
  where
    sorted : (fs : List VideoFragment) → Pairwise ByIndex (insertion_sort fs)
    sorted [] = Pairwise.nil
    sorted (f ∷ fs) = put-sorted f (insertion_sort fs) (sorted fs)

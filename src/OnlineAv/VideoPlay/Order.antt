-- ===== src/OnlineAv/VideoPlay/Order.antt =====
-- A list of fragments has only one order by index, if no index occurs twice.
use mathlib.Core.Logic.Or
use mathlib.Core.List.{Pairwise, mem-cons, mem-cons_self}
use mathlib.Core.List.Perm
use mathlib.Core.List.Pairwise
use eng_project.Base.{◌<◌, ◌≡◌, sym, ap₂, List, [], ◌∷◌, Perm, arith}
use eng_project.OnlineAv.Fragment.{VideoFragment}
use eng_project.OnlineAv.VideoPlay.{ByIndex}

abbrev pub Before : VideoFragment → VideoFragment → Type 0
Before a b = a.fragment_i < b.fragment_i

VideoFragment-set : IsSet VideoFragment
VideoFragment-set = hlevel

heads_eq :
    (a b : VideoFragment) (l r : List VideoFragment)
    → Pairwise ByIndex (a ∷ l)
    → Pairwise Before (b ∷ r)
    → Perm (a ∷ l) (b ∷ r)
    → a ≡ b
heads_eq a b l r (Pairwise.cons ha _) (Pairwise.cons hb _) p =
    Or.elim (VideoFragment-set a b) (mem-cons.0 ((Perm.mem_iff p).0 mem-cons_self)) (λ e. e)
      λ m.
        Or.elim (VideoFragment-set a b) (mem-cons.0 ((Perm.mem_iff p).1 mem-cons_self)) (λ e. sym e)
          λ n. absurd (omega (arith, hb a m, ha b n))

pub sorted-eq_of_perm :
    (l r : List VideoFragment) → Pairwise ByIndex l → Pairwise Before r → Perm l r → l ≡ r
sorted-eq_of_perm [] r _ _ p = Perm.nil-eq p
sorted-eq_of_perm (a ∷ l) [] _ _ p = Perm.eq-nil p
sorted-eq_of_perm (a ∷ l) (b ∷ r) sl sr p =
    let heads = heads_eq a b l r sl sr p in
    let tails = Perm.cons_inv (Perm.trans p (Perm.symm (Perm.cons' heads Perm.rfl))) in
    ap₂ ◌∷◌ heads (sorted-eq_of_perm l r (Pairwise.of_cons sl) (Pairwise.of_cons sr) tails)

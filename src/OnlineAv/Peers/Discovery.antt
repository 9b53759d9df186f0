-- ===== src/OnlineAv/Peers/Discovery.antt =====
-- Which peers `LookForPeers` ends up with.
use eng_project.Base.{
  ◌+◌, ◌≡◌, refl, ◌∙◌, Bool, true, false, ◌&&◌, Bool-cases, inl, inr, List, [], ◌∷◌, ◌++◌, is_pos,
  ◌==◌, if◌then◌else◌, count, payload, arith,
}
use eng_project.OnlineAv.Net.{SockaddrIn, same_addr, occurs}
use eng_project.OnlineAv.Peers.{Hail, is_hello, is_known, look_round, look_for_peers}

-- The sender of a datagram that greets.
abbrev pub greets : SockaddrIn → Hail → Bool
greets a h = is_pos (count h.received) && is_hello (payload h.received) && same_addr h.peer_addr a

-- Whether some datagram is a greeting from `a`.
unfoldable pub hailed : SockaddrIn → List Hail → Bool
hailed a [] = false
hailed a (h ∷ hs) = if greets a h then true else hailed a hs

pub occurs-append :
    (a : SockaddrIn) (xs ys : List SockaddrIn) → occurs a (xs ++ ys) ≡ occurs a xs + occurs a ys
unfolding occurs
occurs-append a [] ys = omega arith
occurs-append a (x ∷ xs) ys = ground (arith, occurs-append a xs ys)

is_known-occurs :
    (a : SockaddrIn) (xs : List SockaddrIn)
    → is_known a xs ≡ (if occurs a xs == 0 then false else true)
unfolding is_known occurs
is_known-occurs a [] = refl
is_known-occurs a (x ∷ xs) = ground (arith, is_known-occurs a xs)

same_addr→eq : (a b : SockaddrIn) → same_addr a b ≡ true → a ≡ b
same_addr→eq a b h = ground arith

pub occurs_self : (a : SockaddrIn) → occurs a (a ∷ []) ≡ 1
unfolding occurs
occurs_self a = ground arith

occurs_other : (a b : SockaddrIn) → same_addr b a ≡ false → occurs a (b ∷ []) ≡ 0
unfolding occurs
occurs_other a b h = rw h

pub occurs-look_round :
    (a : SockaddrIn) (xs : List SockaddrIn) (h : Hail)
    → occurs a (look_round xs h).peer_list
      ≡ (if occurs a xs == 0 then (if greets a h then 1 else 0) else occurs a xs)
unfolding look_round
occurs-look_round a xs h = elim (Bool-cases (same_addr h.peer_addr a)) [
  | inl same ↦
      let e : h.peer_addr ≡ a = same_addr→eq h.peer_addr a same in
      rw same (ground (arith, e, is_known-occurs a xs, occurs-append a xs (a ∷ []), occurs_self a))
  | inr other ↦
      rw other
        (ground (arith, occurs-append a xs (h.peer_addr ∷ []), occurs_other a h.peer_addr other))
]

-- Discovery is exact: after any datagrams, an address that was in the list stands there as often
-- as before, and any other address stands there once if one of the datagrams greets from it, and
-- not at all otherwise.
pub occurs-look_for_peers :
    (a : SockaddrIn) (xs : List SockaddrIn) (hs : List Hail)
    → occurs a (look_for_peers xs hs).peer_list
      ≡ (if occurs a xs == 0 then (if hailed a hs then 1 else 0) else occurs a xs)
unfolding look_for_peers hailed
occurs-look_for_peers a xs [] = ground arith
occurs-look_for_peers a xs (h ∷ hs) =
    occurs-look_for_peers a (look_round xs h).peer_list hs
    ∙ ground (arith, occurs-look_round a xs h)

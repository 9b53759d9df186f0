-- ===== src/OnlineAv/Peers/AsSet.antt =====
-- The list of peers as a set of addresses: what is left of it when the order is forgotten.
use mathlib.Core.Quot
use mathlib.Core.Quot.{Quot, Quot-set}
use native.Mathlib.Nat.{ℕ_set}
use eng_project.Base.{ℕ, ◌≡◌, ◌↔◌, ap, sym, ◌∙◌, Bool, List, [], if◌then◌else◌, arith}
use eng_project.OnlineAv.Net.{SockaddrIn, occurs}
use eng_project.OnlineAv.Peers.{Hail, look_for_peers}
use eng_project.OnlineAv.Peers.Discovery.{hailed, occurs-look_for_peers}

-- The same addresses, each as often.
abbrev pub SamePeers : List SockaddrIn → List SockaddrIn → Type 0
SamePeers xs ys = (a : SockaddrIn) → occurs a xs ≡ occurs a ys

abbrev pub PeerSet : Type 0
PeerSet = Quot SamePeers

-- What `LookForPeers` knows after these datagrams, when it begins with no peers.
abbrev pub found : List Hail → PeerSet
found hs = Quot.mk (look_for_peers [] hs).peer_list

unfoldable pub member : SockaddrIn → PeerSet → ℕ
member a = Quot.lift ℕ_set (occurs a) (λ xs ys h. h a)

abbrev once_if : Bool → ℕ
once_if b = if b then 1 else 0

member-found : (a : SockaddrIn) (hs : List Hail) → member a (found hs) ≡ once_if (hailed a hs)
unfolding member occurs
member-found a hs = occurs-look_for_peers a [] hs

from_test : (b c : Bool) → once_if b ≡ once_if c → b ≡ c
from_test b c e = ground arith

-- Only who has greeted matters: whatever the order of the datagrams, however often a greeting is
-- repeated, and whatever else comes in between, two runs of `LookForPeers` that begin with no peers
-- end with the same set of peers (the lists hold the same addresses, each as often) exactly if
-- each address has greeted in both or in neither.
pub found-iff_greeted :
    (hs ks : List Hail) → (found hs ≡ found ks) ↔ ((a : SockaddrIn) → hailed a hs ≡ hailed a ks)
unfolding occurs
found-iff_greeted hs ks = (
  λ e a.
      from_test (hailed a hs) (hailed a ks)
        (sym (member-found a hs) ∙ (ap (member a) e ∙ member-found a ks)),
  λ same. Quot.sound λ a.
      occurs-look_for_peers a [] hs ∙ (ap once_if (same a) ∙ sym (occurs-look_for_peers a [] ks)),
)

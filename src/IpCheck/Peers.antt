-- ===== src/IpCheck/Peers.antt =====
-- IPcheck/IPcheckstream.cpp, `peer_addresses` and `listenForPeers`. A text is the list of its bytes;
-- `inet_ntoa` is the library's. The set is a `std::set<std::string>`: its elements in the order of
-- `std::string`.
pub mod Laws
use eng_project.Base.{
  ℕ, Bool, true, false, not, ◌&&◌, List, [], ◌∷◌, is_pos, ltb, if◌then◌else◌, count,
}
use eng_project.OnlineAv.Net.{SockaddrIn}
use eng_project.OnlineAv.Peers.{Hail, str_eq}

abbrev pub Text : Type 0
Text = List ℕ

-- `operator<` on texts: lexicographic.
unfoldable pub less : Text → Text → Bool
less [] [] = false
less [] (b ∷ t) = true
less (a ∷ s) [] = false
less (a ∷ s) (b ∷ t) = if ltb a b then true else if ltb b a then false else less s t

-- `peer_addresses.insert(peer_ip)`
unfoldable pub insert : Text → List Text → List Text
unfolding less
insert peer_ip [] = peer_ip ∷ []
insert peer_ip (ip ∷ ips) =
    if less peer_ip ip
    then peer_ip ∷ ip ∷ ips
    else if less ip peer_ip
    then ip ∷ insert peer_ip ips
    else ip ∷ ips

-- `peer_addresses.find(peer_ip) != peer_addresses.end()`
unfoldable pub find : Text → List Text → Bool
unfolding str_eq
find peer_ip [] = false
find peer_ip (ip ∷ ips) = if str_eq ip peer_ip then true else find peer_ip ips

-- "127.0.0.1"
abbrev pub loopback : Text
loopback = b'1' ∷ b'2' ∷ b'7' ∷ b'.' ∷ b'0' ∷ b'.' ∷ b'0' ∷ b'.' ∷ b'1' ∷ []

module _ (inet_ntoa : ℕ → Text) where
  -- One round of `while (true)`. What the datagram says is not looked at.
  unfoldable pub listen_round : List Text → Hail → List Text
  unfolding insert find
  listen_round peer_addresses h =
      let peer_ip = inet_ntoa h.peer_addr.s_addr in
      if is_pos (count h.received)
      then (if not (find peer_ip peer_addresses) && not (str_eq peer_ip loopback)
          then insert peer_ip peer_addresses
          else peer_addresses)
      else peer_addresses

  -- `listenForPeers`: the rounds so far.
  unfoldable pub listen_for_peers : List Text → List Hail → List Text
  unfolding listen_round
  listen_for_peers peer_addresses [] = peer_addresses
  listen_for_peers peer_addresses (h ∷ hs) = listen_for_peers (listen_round peer_addresses h) hs

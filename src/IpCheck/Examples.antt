-- ===== src/IpCheck/Examples.antt =====
-- A run of the discovery of IPcheck, and its theorem at a concrete input.
use eng_project.Base.{ℕ, ◌≡◌, ◌==◌, ◌||◌, refl, List, [], ◌∷◌, failed, got, if◌then◌else◌}
use eng_project.OnlineAv.Peers.{Hail, hello}
use eng_project.IpCheck.Peers.{Text, find, loopback, listen_for_peers}
use eng_project.IpCheck.Peers.Laws.{Ascending, hailed, listen_for_peers-set}

-- Address 1 is the loopback address; every other has a text of one byte.
abbrev inet_ntoa : ℕ → Text
inet_ntoa a = if a == 1 then loopback else a ∷ []

abbrev from : ℕ → Hail
from a = record { received = got hello; peer_addr = record { s_addr = a; sin_port = 12346 } }

abbrev hails : List Hail
hails = from 60 ∷ from 1 ∷ from 50 ∷ from 60 ∷ record (from 40) { received = failed } ∷ []

two_peers : listen_for_peers inet_ntoa [] hails ≡ (50 ∷ []) ∷ (60 ∷ []) ∷ []
unfolding listen_for_peers
two_peers = refl

listen_for_peers-set_example :
    Ascending (listen_for_peers inet_ntoa [] hails)
    × ((t : Text)
        → find t (listen_for_peers inet_ntoa [] hails) ≡ find t [] || hailed inet_ntoa t hails)
listen_for_peers-set_example = listen_for_peers-set inet_ntoa [] hails tt

-- ===== src/Attempt/Client/Connecting.antt =====
-- Which address the earlier client connects to, and which sockets it closes on the way.
use eng_project.Base.{
  ℕ, suc, ◌≡◌, refl, ap, List, [], ◌∷◌, ◌++◌, pos, some, ◌==◌, if◌then◌else◌, All,
}
use eng_project.Client.Event.{closes}
use eng_project.Attempt.Client.{
  Address, no_socket, refused, connected, try_addresses, connect_server,
}

abbrev pub IsSkipped : Address → Type 0
IsSkipped no_socket = Unit
IsSkipped (refused sockfd) = Unit
IsSkipped (connected sockfd) = ⊥

-- How often a descriptor is one on which `connect` failed.
abbrev pub refusals : ℕ → List Address → ℕ
refusals s [] = 0
refusals s (refused sockfd ∷ p) = if sockfd == s then suc (refusals s p) else refusals s p
refusals s (_ ∷ p) = refusals s p

-- The client talks to the first address that answers: if `socket` or `connect` fails for the
-- addresses before it, `connect_server` returns the socket connected to it, whatever addresses
-- follow, and closes each socket on which `connect` failed as often as it was made, and no other.
pub connect_server-takes_first :
    (skipped p : List Address) (sockfd : ℕ)
    → All IsSkipped skipped
    → ((connect_server (some (skipped ++ connected sockfd ∷ p))).result ≡ pos sockfd)
      × ((s : ℕ)
          → closes (pos s) (connect_server (some (skipped ++ connected sockfd ∷ p))).events
            ≡ refusals s skipped)
unfolding connect_server try_addresses closes
connect_server-takes_first [] p sockfd h = (refl, λ s. refl)
connect_server-takes_first (no_socket ∷ skipped) p sockfd h =
    connect_server-takes_first skipped p sockfd h.1
connect_server-takes_first (connected other ∷ skipped) p sockfd h = absurd h.0
connect_server-takes_first (refused other ∷ skipped) p sockfd h =
    let later = connect_server-takes_first skipped p sockfd h.1 in
    (later.0, λ s. ap (λ (n : ℕ). if other == s then suc n else n) (later.1 s))

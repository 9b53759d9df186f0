-- ===== src/IpCheck/Setup.antt =====
-- IPcheck/IPcheckstream.cpp, `setupALSA`, `broadcastPresence` and `main` up to the threads, which
-- never return.
use Prim.Native.String.{String}
use eng_project.Base.{
  ℕ, zero, suc, Bool, true, false, List, [], ◌∷◌, ◌++◌, ℤ, is_neg, if◌then◌else◌,
}
use eng_project.OnlineAv.Net.{SockaddrIn}
use eng_project.OnlineAv.Peers.{hello}

pub data Event : Type 0 where
  datagram : SockaddrIn → List ℕ → Event
  cerr : String → Event

pub record Alsa : Type 0 where
  pub ready : Bool
  pub events : List Event

unfoldable pub setup_alsa : (capture_opens playback_opens : Bool) → Alsa
setup_alsa false playback_opens = record {
  ready = false;
  events = cerr "Error opening capture device.\n" ∷ [];
}
setup_alsa true false = record {
  ready = false;
  events = cerr "Error opening playback device.\n" ∷ [];
}
setup_alsa true true = record { ready = true; events = [] }

-- `broadcastPresence`: the rounds so far. The port is kept in host order.
unfoldable pub broadcast_presence : (rounds : ℕ) → List Event
broadcast_presence zero = []
broadcast_presence (suc rounds) =
    datagram (record { s_addr = 0xffffffff; sin_port = 12346 }) hello ∷ broadcast_presence rounds

-- `main` returns 1, or starts its threads. Whether the broadcast socket is there is not looked at.
pub data Started : Type 0 where
  ended : (code : ℕ) → List Event → Started
  streaming : Started

unfoldable pub main : (capture_opens playback_opens : Bool) → (sockfd bound : ℤ) → Started
unfolding setup_alsa
main capture_opens playback_opens sockfd bound =
    let alsa = setup_alsa capture_opens playback_opens in
    if alsa.ready
    then (if is_neg sockfd
        then ended 1 (alsa.events ++ cerr "Failed to create socket.\n" ∷ [])
        else if is_neg bound
        then ended 1 (alsa.events ++ cerr "Failed to bind socket.\n" ∷ [])
        else streaming)
    else ended 1 (alsa.events ++ cerr "Failed to set up ALSA.\n" ∷ [])

-- ===== src/WebRtc/Peer.antt =====
-- WebRTC/Peers/src/main.cpp: the observer that passes candidates on, the setup of the peer
-- connection, and `main`. What WebRTC does is an input.
use Prim.Native.String.{String}
use eng_project.Base.{ℕ, Bool, not, List, [], ◌∷◌, ◌++◌, if◌then◌else◌}
use eng_project.WebRtc.Signaling
use eng_project.WebRtc.Signaling.{Completion, signaling_client, connect, send}

pub data Event : Type 0 where
  signaling : Signaling.Event → Event
  create_connection : Event
  add_track : Event
  release_connection : Event  -- its last `scoped_refptr` is destroyed
  cout : String → Event
  cerr : String → Event

-- What the observer is told.
pub data Notice : Type 0 where
  signaling_change : Notice
  ice_candidate : (sdp : List ℕ) → Notice

abbrev pub lift : List Signaling.Event → List Event
lift [] = []
lift (e ∷ es) = signaling e ∷ lift es

-- `OnSignalingChange` and `OnIceCandidate` of `CustomPeerConnectionObserver`
unfoldable pub observe : Notice → List Event
observe signaling_change = cout "Signaling state changed: " ∷ []
observe (ice_candidate sdp) = cout "New ICE Candidate: " ∷ lift (send sdp)

-- `initialize_webrtc`, by whether the factory and the connection are made. `peer_connection` is a
-- local variable.
unfoldable pub initialize_webrtc : (factory connection : Bool) → List Event
initialize_webrtc factory connection =
    if not factory
    then cerr "Failed to initialize PeerConnectionFactory" ∷ []
    else if not connection
    then cerr "Failed to create PeerConnection" ∷ []
    else create_connection ∷ add_track ∷ release_connection ∷ []

abbrev observe_all : List Notice → List Event
observe_all [] = []
observe_all (n ∷ ns) = observe n ++ observe_all ns

-- `main`, which never returns. What the threads do is listed part by part.
unfoldable pub main : List Completion → (factory connection : Bool) → List Notice → List Event
unfolding connect signaling_client initialize_webrtc observe
main results factory connection notices =
    lift (connect signaling_client results)
    ++ (initialize_webrtc factory connection ++ observe_all notices)

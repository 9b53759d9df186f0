-- ===== src/OnlineAv/Examples/Together.antt =====
-- Runs of the whole conference program, and its theorems at concrete inputs.
use eng_project.Base.{
  All, ◌*◌, ◌^◌, ◌≤◌, ℕ, ◌<◌, ◌+◌, ◌≡◌, ◌↔◌, got, refl, true, false, Option, some, List, [], ◌∷◌,
  arith, pos, negsuc, replicate, if◌then◌else◌, length,
}
use eng_project.OnlineAv.Fragment.{to_image, sizeof_fragment}
use eng_project.Base.Assoc.{lookup}
use eng_project.OnlineAv.VideoSend.Cover.{total_bounds}
use eng_project.OnlineAv.VideoSend.{make_fragment, total_fragments}
use eng_project.OnlineAv.VideoSend.Bounds.{make_fragment_bounds}
use eng_project.OnlineAv.VideoPlay.{at, Player, play_video}
use eng_project.OnlineAv.Examples.InsertionSort.{insertion_sort, insertion_sort-IsSort}
use eng_project.OnlineAv.VideoSend.{no_frame, encoded}
use eng_project.OnlineAv.Conference.{delivered}
use eng_project.OnlineAv.Conference.Video.{Shot, network, Reaches, all_seen, video-seen}
use eng_project.OnlineAv.Net.{SockaddrIn, occurs}
use eng_project.OnlineAv.Peers.{Hail, hello}
use eng_project.OnlineAv.Peers.Discovery.{hailed, occurs_self}
use eng_project.OnlineAv.Peers.AsSet.{found, found-iff_greeted}
use eng_project.OnlineAv.Setup.{Calls, sockfd, playbackman, captureman, main}
use eng_project.OnlineAv.Setup.Exits.{acquired, released, half_open, main-releases}

abbrev no_speaker : Calls
no_speaker = record {
  socket = pos 3;
  broadcast = pos 0;
  bound = pos 0;
  capture_opens = true;
  playback_opens = false;
}

main-releases_example :
    (acquired sockfd (main no_speaker).events ≡ released sockfd (main no_speaker).events)
    × (acquired playbackman (main no_speaker).events
        ≡ released playbackman (main no_speaker).events)
    × (acquired captureman (main no_speaker).events
        ≡ released captureman (main no_speaker).events + (if half_open no_speaker then 1 else 0))
main-releases_example = main-releases no_speaker

abbrev pub idle : Player ℕ
idle = record { running = true; reassembled_frame = []; fragment_buffer = []; log = [] }

abbrev pub decode : List ℕ → Option ℕ
decode bytes = some (length bytes)

abbrev pub picture : List ℕ
picture = replicate 1500 7

make_fragment_bounds_example :
    (0 < (make_fragment 3 picture (total_fragments picture) 1).fragment_s)
    × ((make_fragment 3 picture (total_fragments picture) 1).fragment_s ≤ 1400)
    × (1 * 1400 + (make_fragment 3 picture (total_fragments picture) 1).fragment_s ≤ length picture)
    × (1 < 2 ^ 32)
    × (total_fragments picture < 2 ^ 32)
    × (length (to_image (make_fragment 3 picture (total_fragments picture) 1)) ≡ sizeof_fragment)
make_fragment_bounds_example =
    make_fragment_bounds 3 picture 1 (omega arith) (omega arith)
      (omega (arith, total_bounds picture (omega arith)))

abbrev sender : SockaddrIn
sender = record { s_addr = 1; sin_port = 12345 }

nothing_stored : (k : ℕ) → at k [] ≡ []
unfolding at lookup
nothing_stored k = refl

abbrev hail : ℕ → Hail
hail address = record {
  received = got hello;
  peer_addr = record { s_addr = address; sin_port = 12345 };
}

found-iff_greeted_example :
    (found (hail 1 ∷ hail 2 ∷ []) ≡ found (hail 2 ∷ hail 1 ∷ hail 2 ∷ [])) ↔ (
      (a : SockaddrIn) → hailed a (hail 1 ∷ hail 2 ∷ []) ≡ hailed a (hail 2 ∷ hail 1 ∷ hail 2 ∷ []))
found-iff_greeted_example = found-iff_greeted (hail 1 ∷ hail 2 ∷ []) (hail 2 ∷ hail 1 ∷ hail 2 ∷ [])

-- No picture from the camera, a picture of which the second fragment is lost, and a whole one.
abbrev shots : List Shot
shots =
    record { capture = no_frame; kept = [] }
    ∷ record { capture = encoded picture (λ _. sender ∷ []); kept = true ∷ false ∷ [] }
    ∷ record { capture = encoded (8 ∷ 9 ∷ []) (λ _. sender ∷ []); kept = [] }
    ∷ []

sender_once : occurs sender (sender ∷ []) ≡ 1
sender_once = occurs_self sender

shots-Reaches : All (λ (s : Shot). Reaches sender s.capture) shots
shots-Reaches = (
  tt,
  (
    (omega arith, omega arith, λ i. sender_once),
    ((omega arith, omega arith, λ i. sender_once), tt),
  ),
)

video-seen_example :
    (q : Player ℕ) × (play_video decode insertion_sort idle
        (delivered (negsuc 0) (network (λ _ _. negsuc 0) sender 5 shots))
      ≡ some q)
    × (q.log ≡ all_seen decode shots)
    × (q.running ≡ true)
video-seen_example =
    video-seen decode insertion_sort insertion_sort-IsSort (negsuc 0) refl (λ _ _. negsuc 0) sender
      shots 5 idle shots-Reaches (omega arith) refl (λ k above. nothing_stored k)

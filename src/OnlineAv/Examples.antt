-- ===== src/OnlineAv/Examples.antt =====
-- Runs of the conference program, and its theorems at concrete inputs.
mod InsertionSort
mod Lost
mod Together
use mathlib.Core.List.Perm
use eng_project.Base.{
  ℕ, ◌<◌, ◌≡◌, ◌≢◌, refl, ap, true, false, Option, none, some, List, [], ◌∷◌, ◌++◌, map, arith, ℤ,
  pos, negsuc, Received, got, length, replicate,
}
use eng_project.OnlineAv.Net.{SockaddrIn, Sendto, occurs}
use eng_project.OnlineAv.Net.{mail}
use eng_project.Base.Bytes.{of_le}
use eng_project.Base.Assoc.{lookup}
use eng_project.OnlineAv.Fragment.{recv_fragment, of_image, overlay}
use eng_project.OnlineAv.Audio
use eng_project.OnlineAv.Audio.{
  AudioPacket, Speaker, played, prepare, Recorder, Recording, read_error, samples, record_and_send,
}
use eng_project.OnlineAv.Audio.Rounds.{IsReady}
use eng_project.OnlineAv.Audio.Heard.{heard, recorded, arrive, recorded-heard}
use eng_project.OnlineAv.Audio.Sequence.{captured, numbers, sent_numbers, sequence-in_order}
use eng_project.Base.Loss.{survive}
use eng_project.OnlineAv.VideoSend.{make_fragment}
use eng_project.OnlineAv.VideoSend.Cover.{total_bounds}
use eng_project.OnlineAv.VideoSend.Frames.{early, final, length-early}
use eng_project.OnlineAv.VideoPlay.{Player, shown, at, play_round, play_video, is_escape}
use eng_project.OnlineAv.VideoPlay.Collect.{arrives}
use eng_project.OnlineAv.VideoPlay.Roundtrip.{on_screen, video-roundtrip}
use eng_project.OnlineAv.VideoPlay.Faults.{reordered_frame-lost, oversized_fragment-undefined}
use eng_project.OnlineAv.Peers.{Hail, hello, is_hello, look_for_peers}
use eng_project.OnlineAv.Peers.Discovery.{hailed, occurs_self, occurs-look_for_peers}
use eng_project.OnlineAv.Conference.{delivered, frame_mail, greeted_peer-sees_frame}
use InsertionSort.{insertion_sort, insertion_sort-IsSort}

-- A decoder that gives the size of the picture.
abbrev decode : List ℕ → Option ℕ
decode bytes = some (length bytes)

-- Two fragments.
abbrev picture : List ℕ
picture = replicate 1500 7

abbrev idle : Player ℕ
idle = record { running = true; reassembled_frame = []; fragment_buffer = []; log = [] }

at-nil : (k : ℕ) → at k [] ≡ []
unfolding at lookup
at-nil k = refl

video-roundtrip_example :
    (q : Player ℕ) × (play_video decode insertion_sort idle
        (map (arrives (negsuc 0)) (early 3 picture) ++ arrives (negsuc 0) (final 3 picture) ∷ [])
      ≡ some q)
    × (q.reassembled_frame ≡ picture)
    × (q.log ≡ shown 1500 ∷ [])
    × ((k : ℕ) → at k q.fragment_buffer ≡ at k [])
    × (is_escape (negsuc 0) ≡ false → q.running ≡ true)
video-roundtrip_example =
    video-roundtrip decode insertion_sort 3 picture (omega arith) (omega arith) (omega arith)
      (early 3 picture) Perm.rfl insertion_sort-IsSort idle (negsuc 0) refl (at-nil 3)

two_fragments : early 3 picture ≢ []
two_fragments none_left = omega (
  arith,
  ap length none_left,
  length-early 3 picture (omega arith) (omega arith),
  total_bounds picture (omega arith),
)

reordered_frame-lost_example :
    (q : Player ℕ) × (play_video decode insertion_sort idle
        (arrives (negsuc 0) (final 3 picture) ∷ map (arrives (negsuc 0)) (early 3 picture))
      ≡ some q)
    × (q.log ≡ [])
    × (at 3 q.fragment_buffer ≡ final 3 picture ∷ early 3 picture)
reordered_frame-lost_example =
    reordered_frame-lost decode insertion_sort 3 picture (omega arith) (omega arith) (omega arith)
      [] (early 3 picture) Perm.rfl two_fragments idle (negsuc 0) refl (at-nil 3)

-- The flag and a total of 1, and a `fragment_s` of 65535.
abbrev oversized : List ℕ
oversized = replicate 8 0 ++ (1 ∷ 0 ∷ 0 ∷ 0 ∷ 1 ∷ 0 ∷ 0 ∷ 0 ∷ 255 ∷ 255 ∷ [])

oversized_fragment-undefined_example :
    play_round decode insertion_sort idle (record { received = got oversized; key = negsuc 0 })
    ≡ none
unfolding recv_fragment overlay of_image of_le
oversized_fragment-undefined_example =
    oversized_fragment-undefined decode insertion_sort insertion_sort-IsSort idle oversized
      (negsuc 0) refl refl (omega arith) (at-nil 0)

abbrev neighbour : SockaddrIn
neighbour = record { s_addr = 0xc0a80155; sin_port = 12345 }

-- A greeting, noise, and the greeting once more.
abbrev hails : List Hail
hails =
    record { received = got hello; peer_addr = neighbour }
    ∷ record { received = got (1 ∷ 2 ∷ []); peer_addr = neighbour }
    ∷ record { received = got hello; peer_addr = neighbour }
    ∷ []

greeted : hailed neighbour hails ≡ true
unfolding hailed is_hello
greeted = refl

occurs-look_for_peers_example : occurs neighbour (look_for_peers [] hails).peer_list ≡ 1
unfolding occurs hailed is_hello
occurs-look_for_peers_example = occurs-look_for_peers neighbour [] hails

greeted_peer-sees_frame_example :
    (q : Player ℕ) × (play_video decode insertion_sort idle (
        delivered
          (negsuc 0)
          (frame_mail (λ _ _. negsuc 0) neighbour (look_for_peers [] hails).peer_list 3 picture))
      ≡ some q)
    × (q.reassembled_frame ≡ picture)
    × (q.log ≡ shown 1500 ∷ [])
greeted_peer-sees_frame_example =
    greeted_peer-sees_frame decode insertion_sort insertion_sort-IsSort (λ _ _. negsuc 0) hails
      neighbour 3 picture idle (negsuc 0) greeted (omega arith) (omega arith) (omega arith) refl
      (at-nil 3)

abbrev silent : Speaker
silent = record { packet = replicate 4112 0; last_sequ = 0; sounds = [] }

abbrev start : Recorder
start = record {
  running = true;
  packet = record { a_sequence = 0; timestamp = 0; audio_data = replicate 4096 0 };
  sequence = 4294967295;
  events = [];
}

start-IsReady : IsReady start
start-IsReady = record {
  is_running = refl;
  seq_fits = omega arith;
  time_fits = omega arith;
  data_full = refl;
}

once : occurs neighbour (neighbour ∷ []) ≡ 1
once = occurs_self neighbour

-- Samples, a failure from which the device recovers, samples, one that ends the loop, and more.
abbrev session : List Recording
session =
    samples (1 ∷ 2 ∷ []) (neighbour ∷ [])
    ∷ read_error (pos 0)
    ∷ samples [] (neighbour ∷ [])
    ∷ read_error (negsuc 0)
    ∷ samples [] (neighbour ∷ [])
    ∷ []

sequence-in_order_example :
    sent_numbers neighbour (record_and_send (λ _ _. pos 0) start session).events
    ≡ 4294967295 ∷ 0 ∷ []
unfolding captured numbers mail
sequence-in_order_example =
    sequence-in_order (λ _ _. pos 0) neighbour start session start-IsReady
      (once, (tt, (once, (tt, (once, tt)))))

-- Two buffers are recorded, of which the first gets lost.
abbrev concert : List Recording
concert =
    samples (replicate 4096 1) (neighbour ∷ [])
    ∷ read_error (pos 0)
    ∷ samples (replicate 4096 2) (neighbour ∷ [])
    ∷ []

nothing_sent : mail neighbour start.events ≡ []
unfolding mail
nothing_sent = refl

recorded-heard_example :
    heard
      (Audio.play_audio silent (
        arrive
          (λ i. negsuc 31)
          0
          (survive
            (false ∷ [])
            (mail neighbour (record_and_send (λ _ _. pos 0) start concert).events)))).sounds
    ≡ heard [] ++ survive (false ∷ []) (recorded concert)
recorded-heard_example =
    recorded-heard (λ _ _. pos 0) neighbour start concert (false ∷ []) (λ i. negsuc 31) silent
      start-IsReady nothing_sent (once, (tt, (once, tt))) (refl, (tt, (refl, tt))) refl

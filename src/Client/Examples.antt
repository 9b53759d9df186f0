-- ===== src/Client/Examples.antt =====
-- Runs of the client, and its theorems at concrete inputs.
use eng_project.Base.{
  ℕ, ◌+◌, ◌*◌, ◌<◌, ◌≤◌, ◌≡◌, ◌↔◌, refl, true, false, List, [], ◌∷◌, ◌++◌, map, ◌==◌, arith, pos,
  negsuc, is_neg, got,
}
use eng_project.Client.Event.{messages, closes, slept}
use eng_project.Client.Connect.{
  Attempt, no_socket, refused, connected, connect_server, made, connect_view,
}
use eng_project.Client.Connect.Retries.{
  IsConnected, opened, returned, connect_server-no_leak, connect_server-succeeds,
  last_attempt-discarded,
}
use eng_project.Client.Capture
use eng_project.Client.Capture.{frames_read, recovered, audio_cap}
use eng_project.Client.Capture.Mirror.{sound_of, audio_cap-mirrors}
use eng_project.Client.Playback
use eng_project.Client.Playback.{whole_frames, play_loop, play_audio}
use eng_project.Client.Main.{capture_view, Streams, stream, World, main}
use eng_project.Client.Main.Waiting.{main-gives_up}
use eng_project.Client.Main.Closing.{server_socket-closed_twice}

-- Refused in the first round, no socket in the second, then connected.
abbrev third_time : ℕ → Attempt
third_time n = elim (n == 4) [
  | true ↦ refused 3
  | false ↦ elim (n == 3) [ true ↦ no_socket | false ↦ connected 4 ]
]

connect_server-no_leak_example :
    opened (pos 3) third_time 5
    ≡ closes (pos 3) (connect_server third_time 2 5).events
      + returned (pos 3) (connect_server third_time 2 5).result
connect_server-no_leak_example = connect_server-no_leak third_time 2 5 3

connect_server-succeeds_example :
    (is_neg (connect_server third_time 2 5).result ≡ false)
    × (slept (connect_server third_time 2 5).events + 2 * 3 ≤ 2 * 5)
connect_server-succeeds_example = connect_server-succeeds third_time 2 5 2 4 (omega arith) refl

last_attempt-discarded_example :
    ((connect_view capture_view (made 9) (λ n. n == 0) 2 5).result ≡ negsuc 0)
    × (closes (pos 9) (connect_view capture_view (made 9) (λ n. n == 0) 2 5).events ≡ 0)
last_attempt-discarded_example =
    last_attempt-discarded capture_view (λ n. n == 0) 9 2 5 (λ k positive lt. ground arith)

-- Two rounds; in the second the visualizer is gone.
abbrev recorded : List Capture.Round
recorded =
    record { reading = frames_read 1 (1 ∷ 2 ∷ 3 ∷ 4 ∷ []); now = 77; sent = pos 4; shown = pos 12 }
    ∷ record { reading = recovered 1; now = 78; sent = pos 4; shown = negsuc 0 }
    ∷ []

audio_cap-mirrors_example :
    (rest : List (List ℕ)) × (map sound_of
          (messages (pos 5) (audio_cap true (pos 4) (pos 5) [] recorded).events)
        ++ rest
      ≡ messages (pos 4) (audio_cap true (pos 4) (pos 5) [] recorded).events)
    × ((audio_cap true (pos 4) (pos 5) [] recorded).stop_streaming ≡ false → rest ≡ [])
audio_cap-mirrors_example = audio_cap-mirrors (pos 4) (pos 5) refl refl refl refl [] recorded

-- Five bytes, of which the last is no whole frame, and an underrun.
abbrev heard : Playback.Round
heard = record {
  received = got (1 ∷ 2 ∷ 3 ∷ 4 ∷ 5 ∷ []);
  written = negsuc 31;
  prepared = pos 0;
  shown = pos 5;
  broken_pipe = false;
}

abbrev streams : Streams
streams = record {
  capture_opened = true;
  buffer = [];
  capture_rounds = recorded;
  playback_opened = true;
  playback_rounds = heard ∷ [];
}

server_socket-closed_twice_example : closes (pos 4) (stream (pos 4) (pos 5) (negsuc 0) streams) ≡ 2
server_socket-closed_twice_example =
    server_socket-closed_twice 4 (pos 5) (negsuc 0) streams refl refl refl

-- The third round of `connect_server` connects; one visualizer is there, the other never is.
abbrev world : World
world = record {
  attempt = third_time;
  capture_socket = made 5;
  capture_connects = λ n. n == 3;
  playback_socket = made 6;
  playback_connects = λ n. false;
  streams = streams;
}

main-gives_up_example :
    (slept (main world).events ≤ 30)
    × (((main world).code ≡ 1) ↔ ((k : ℕ) → k < 5 → ¬ IsConnected (third_time k)))
main-gives_up_example = main-gives_up world

-- ===== src/Tracks/Examples.antt =====
-- Runs of the programs of Online_Tracks, and their theorems at concrete inputs.
use Prim.Native.String.{String}
use eng_project.Base.{
  ℕ, ◌≡◌, refl, true, false, List, [], ◌∷◌, ◌++◌, ℤ, pos, negsuc, inl, Option, some, arith,
}
use eng_project.OnlineAv.Net.{SockaddrIn}
use eng_project.Client.Capture.{frames_read, recovered}
use eng_project.Tracks.Stream.{CaptureRound, audio_cap}
use eng_project.Tracks.Stream.Traffic.{mail, plays, deliver}
use eng_project.Tracks.Start.{Streams, bound, ready, start1}
use eng_project.Tracks.Conn2
use eng_project.Tracks.Call.{other_end, sounds, captured-played, overrun-stops_peer}
use eng_project.Tracks.Waiting.{
  System, blocked, idle, test_fails, block, signal, test_holds, notify_all, capture_ends,
  playback_stops, playback_ends, join_capture, join_playback, init, Reach, start, later, here,
  after, closed,
}
use eng_project.Tracks.Waiting.Safety.{closed-last, error-hangs}

abbrev inet_pton : String → Option ℕ
inet_pton text = some 0xc0a80155

abbrev remote : SockaddrIn
remote = record { s_addr = 0xc0a80155; sin_port = 54321 }

started : start1 inet_pton (bound 3) ≡ ready 3 remote
unfolding start1
started = refl

-- A frame, then another.
abbrev speech : List CaptureRound
speech =
    record { reading = frames_read 1 (1 ∷ 2 ∷ 3 ∷ 4 ∷ []); sent = pos 4 }
    ∷ record { reading = frames_read 1 (5 ∷ 6 ∷ 7 ∷ 8 ∷ []); sent = pos 4 }
    ∷ []

abbrev overrun : CaptureRound
overrun = record { reading = recovered 0; sent = pos 0 }

abbrev results : ℕ → ℤ × ℤ
results i = (pos 1, pos 0)

captured-played_example :
    (plays
        (Conn2.play_audio true (negsuc 0) (
          deliver results 0
            (mail (other_end remote) (audio_cap true remote (negsuc 0) [] speech).events))).events
      ≡ sounds speech)
    × ((Conn2.play_audio true (negsuc 0) (
          deliver results 0 (
            mail
              (other_end remote)
              (audio_cap true remote (negsuc 0) [] speech).events))).stop_streaming
        ≡ false)
captured-played_example =
    captured-played (negsuc 0) (negsuc 0) [] results (λ i. inl refl) inet_pton 3 remote started
      speech (((omega arith), refl), (((omega arith), refl), tt))

overrun-stops_peer_example :
    (plays
        (Conn2.play_audio true (negsuc 0) (
          deliver results 0 (
            mail
              (other_end remote)
              (audio_cap true remote (negsuc 0) [] (speech ++ overrun ∷ speech)).events))).events
      ≡ sounds speech)
    × ((Conn2.play_audio true (negsuc 0) (
          deliver results 0 (
            mail
              (other_end remote)
              (audio_cap true remote
                (negsuc 0)
                []
                (speech ++ overrun ∷ speech)).events))).stop_streaming
        ≡ true)
overrun-stops_peer_example =
    overrun-stops_peer (negsuc 0) (negsuc 0) [] results (λ i. inl refl) inet_pton 3 remote started
      speech speech overrun (((omega arith), refl), (((omega arith), refl), tt)) refl refl

-- The variable for the capture socket holds 3, which is the socket.
abbrev streams : Streams
streams = record {
  local_sockfd_capture = pos 3;
  local_sockfd_playback = negsuc 0;
  capture_opened = true;
  buffer = [];
  capture_rounds = speech;
  playback_opened = false;
  playback_rounds = [];
}

-- `main` waits; the signal comes; the threads return; `main` joins them and closes the socket.
abbrev ended : System
ended = record {
  stop_streaming = true;
  main = closed;
  handler = idle;
  capture_runs = false;
  playback_runs = false;
}

ended-Reach : Reach ended
ended-Reach =
    later
      (later
        (later
          (later
            (later
              (later (later (later (later start (test_fails refl refl)) (block refl)) (signal refl))
                (notify_all refl))
              (test_holds refl refl))
            (capture_ends refl))
          (playback_ends refl))
        (join_capture refl refl))
      (join_playback refl refl)

closed-last_example :
    (ended.stop_streaming ≡ true) × (ended.capture_runs ≡ false) × (ended.playback_runs ≡ false)
closed-last_example = closed-last ended-Reach refl

abbrev waits : System
waits = record init { main = blocked }

-- Both threads have returned after an error in playback; `main` waits.
abbrev abandoned : System
abandoned = record waits { stop_streaming = true; capture_runs = false; playback_runs = false }

error-hangs_example : abandoned.main ≡ blocked
error-hangs_example =
    error-hangs {s = waits} {t = abandoned} refl
      (after (after (after here (playback_stops refl)) (playback_ends refl)) (capture_ends refl))

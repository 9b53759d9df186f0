-- ===== src/Client/Threads/Examples.antt =====
-- Runs of the two threads of TCPS/Client/TCPSC.cpp, and the theorems at concrete inputs.
use eng_project.Base.{
  ◌≡◌, ◌≤◌, ◌⊎◌, refl, true, false, ◌||◌, List, [], ◌∷◌, Perm, pos, negsuc, failed,
}
use eng_project.Client.Event.{Event, close, close_device, cerr, cout, perror}
use eng_project.Client.Capture
use eng_project.Client.Capture.{broken, capture_round, handle_reading, audio_cap}
use eng_project.Client.Playback
use eng_project.Client.Playback.{play_round, play_audio}
use eng_project.Client.Main.{Streams, stream}
use eng_project.Client.Threads.{
  working, closing, ended, finished, joining_capture, Threads, Who, by_capture, by_playback,
  by_main, capture_opens, capture_tests, capture_works, capture_closes, playback_opens,
  playback_tests, playback_works, playback_closes, main_prints, main_joins, main_closes, made, Run,
  at_first, and_then, close_all,
}
use eng_project.Client.Threads.Trace.{done_by, done}
use eng_project.Client.Threads.Split.{run-stream}
use eng_project.Client.Threads.Stopping.{CanStep, IsInCall, stopped-ends}

-- The reading fails.
abbrev no_sound : Capture.Round
no_sound = record { reading = broken; now = 0; sent = pos 0; shown = pos 0 }

-- The connection breaks.
abbrev no_data : Playback.Round
no_data = record {
  received = failed;
  written = pos 0;
  prepared = pos 0;
  shown = pos 0;
  broken_pipe = false;
}

-- The capturing thread ends by an error, and the playing thread sets the flag.
abbrev both_fail : List (Who × List Event)
both_fail =
    (by_main, close_all (pos 4) (pos 5) (negsuc 0))
    ∷ (by_playback, close_device ∷ close (negsuc 0) ∷ [])
    ∷ (by_main, [])
    ∷ (by_capture, close_device ∷ close (pos 4) ∷ close (pos 5) ∷ [])
    ∷ (by_playback, perror "recv error" ∷ [])
    ∷ (by_capture, cerr "Audio capture error" ∷ [])
    ∷ (by_main, cout "Press Ctrl+C to stop streaming..." ∷ [])
    ∷ (by_playback, [])
    ∷ (by_capture, [])
    ∷ (by_playback, [])
    ∷ (by_capture, [])
    ∷ []

abbrev over : Threads
over = record {
  stop_streaming = true;
  capture = ended;
  buffer = 7 ∷ [];
  playback = ended;
  main = finished;
}

both_fail-Run : Run (pos 4) (pos 5) (negsuc 0) (made (7 ∷ [])) both_fail over
unfolding capture_round handle_reading play_round
both_fail-Run =
    and_then
      (and_then
        (and_then
          (and_then
            (and_then
              (and_then
                (and_then
                  (and_then
                    (and_then
                      (and_then (and_then at_first (capture_opens refl)) (playback_opens refl))
                      (capture_tests refl))
                    (playback_tests refl))
                  (main_prints refl))
                (capture_works no_sound refl))
              (playback_works no_data refl))
            (capture_closes refl))
          (main_joins refl refl))
        (playback_closes refl))
      (main_closes refl refl)

run-stream_example :
    (s : Streams) × (s.buffer ≡ 7 ∷ [])
    × (done_by by_capture both_fail
        ≡ (audio_cap s.capture_opened (pos 4) (pos 5) (7 ∷ []) s.capture_rounds).events)
    × (done_by by_playback both_fail
        ≡ (play_audio s.playback_opened (negsuc 0) s.playback_rounds).events)
    × (true ≡ (
        (audio_cap s.capture_opened (pos 4) (pos 5) (7 ∷ []) s.capture_rounds).stop_streaming
        || (play_audio s.playback_opened (negsuc 0) s.playback_rounds).stop_streaming))
    × Perm (done both_fail) (stream (pos 4) (pos 5) (negsuc 0) s)
run-stream_example = run-stream (pos 4) (pos 5) (negsuc 0) (7 ∷ []) both_fail-Run refl

-- The playing thread has set the flag while the other captures.
abbrev stopped : Threads
stopped = record {
  stop_streaming = true;
  capture = working;
  buffer = 7 ∷ [];
  playback = closing;
  main = joining_capture;
}

stopped-Run :
    Run
      (pos 4)
      (pos 5)
      (negsuc 0)
      stopped
      ((by_playback, close_device ∷ close (negsuc 0) ∷ []) ∷ [])
      (record stopped { playback = ended })
stopped-Run = and_then at_first (playback_closes refl)

stopped-ends_example :
    (◌≤◌ 1 9)
    × (◌≡◌ true true)
    × ((joining_capture ≡ finished)
        ⊎ (CanStep (pos 4) (pos 5) (negsuc 0) (record stopped { playback = ended })
            ⊎ IsInCall (pos 4) (pos 5) (negsuc 0) (record stopped { playback = ended })))
stopped-ends_example = stopped-ends (pos 4) (pos 5) (negsuc 0) refl stopped-Run

-- ===== src/Client/Threads.antt =====
-- TCPS/Client/TCPSC.cpp, the end of `main` with its two threads, as a step relation: `audio_cap` and
-- `play_audio` run side by side, share `stop_streaming`, and `main` joins them. A step is a test of
-- the flag, or the body of a loop up to its end, where alone a body writes the flag.
pub mod Parts
pub mod Positions
pub mod Rounds
pub mod Split
pub mod Stopping
pub mod Trace
mod Examples
use eng_project.Base.{Bool, false, ◌||◌, List, [], ◌∷◌, ◌++◌, ◌≡◌, ℕ, ℤ, if◌then◌else◌}
use eng_project.Client.Event.{Event, close, close_device, cerr, cout}
use eng_project.Client.Capture
use eng_project.Client.Capture.{capture_round}
use eng_project.Client.Playback
use eng_project.Client.Playback.{play_round}
use eng_project.Client.Main.{close_unless_none}

-- Where a thread stands.
pub data Position : Type 0 where
  opening : Position  -- before `snd_pcm_open`
  testing : Position  -- before the test of `while (!stop_streaming)`
  working : Position  -- in the body
  closing : Position  -- after the loop
  ended : Position

pub data Main : Type 0 where
  starting : Main  -- before "Press Ctrl+C to stop streaming..."
  joining_capture : Main
  joining_playback : Main
  finished : Main

pub record Threads : Type 0 where
  pub stop_streaming : Bool
  pub capture : Position
  pub buffer : List ℕ
  pub playback : Position
  pub main : Main

-- Whose step it is.
pub data Who : Type 0 where
  by_capture : Who
  by_playback : Who
  by_main : Who

-- After both joins.
unfoldable pub close_all : (sockfd cap_view play_view : ℤ) → List Event
close_all sockfd cap_view play_view =
    close sockfd
    ∷ (close_unless_none cap_view
        ++ (close_unless_none play_view ++ cout "Connection closed.\n" ∷ []))

pub data Step (sockfd cap_view play_view : ℤ) (t : Threads)
    : Who → List Event → Threads → Type 0 where
  capture_opens :
      t.capture ≡ opening
      → Step sockfd cap_view play_view t by_capture [] (record t { capture = testing })
  capture_fails :
      t.capture ≡ opening
      → Step sockfd cap_view play_view t by_capture
          (cerr "capture device error" ∷ [])
          (record t { capture = ended })
  capture_tests :
      t.capture ≡ testing
      → Step sockfd cap_view play_view t by_capture []
          (record t { capture = if t.stop_streaming then closing else working })
  capture_works :
      (r : Capture.Round)
      → t.capture ≡ working
      → Step sockfd cap_view play_view t by_capture
          (capture_round sockfd cap_view r t.buffer).events
          (record t {
            stop_streaming =
                t.stop_streaming || (capture_round sockfd cap_view r t.buffer).stop_streaming;
            buffer = (capture_round sockfd cap_view r t.buffer).buffer;
            capture = if (capture_round sockfd cap_view r t.buffer).out then closing else testing;
          })
  capture_closes :
      t.capture ≡ closing
      → Step sockfd cap_view play_view t by_capture
          (close_device ∷ close sockfd ∷ close cap_view ∷ [])
          (record t { capture = ended })
  playback_opens :
      t.playback ≡ opening
      → Step sockfd cap_view play_view t by_playback [] (record t { playback = testing })
  playback_fails :
      t.playback ≡ opening
      → Step sockfd cap_view play_view t by_playback
          (cerr "playback device error" ∷ [])
          (record t { playback = ended })
  playback_tests :
      t.playback ≡ testing
      → Step sockfd cap_view play_view t by_playback []
          (record t { playback = if t.stop_streaming then closing else working })
  playback_works :
      (r : Playback.Round)
      → t.playback ≡ working
      → Step sockfd cap_view play_view t by_playback (play_round play_view r).events (record t {
        stop_streaming = t.stop_streaming || (play_round play_view r).stop_streaming;
        playback = if (play_round play_view r).out then closing else testing;
      })
  playback_closes :
      t.playback ≡ closing
      → Step sockfd cap_view play_view t by_playback
          (close_device ∷ close play_view ∷ [])
          (record t { playback = ended })
  main_prints :
      t.main ≡ starting
      → Step sockfd cap_view play_view t by_main
          (cout "Press Ctrl+C to stop streaming..." ∷ [])
          (record t { main = joining_capture })
  main_joins :
      t.main ≡ joining_capture
      → t.capture ≡ ended
      → Step sockfd cap_view play_view t by_main [] (record t { main = joining_playback })
  main_closes :
      t.main ≡ joining_playback
      → t.playback ≡ ended
      → Step sockfd cap_view play_view t by_main
          (close_all sockfd cap_view play_view)
          (record t { main = finished })

-- When the threads have just been made; `buffer` is what the uninitialised array of `audio_cap`
-- holds.
abbrev pub made : List ℕ → Threads
made buffer = record {
  stop_streaming = false;
  capture = opening;
  buffer = buffer;
  playback = opening;
  main = starting;
}

-- A run of so many steps, with what each did, the last one first.
pub data Run (sockfd cap_view play_view : ℤ) (s : Threads)
    : List (Who × List Event) → Threads → Type 0 where
  at_first : Run sockfd cap_view play_view s [] s
  and_then :
      {trace : List (Who × List Event)} {t u : Threads} {who : Who} {es : List Event}
      → Run sockfd cap_view play_view s trace t
      → Step sockfd cap_view play_view t who es u
      → Run sockfd cap_view play_view s ((who, es) ∷ trace) u

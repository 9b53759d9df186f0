-- ===== src/Client/Threads/Split.antt =====
-- A run of `main` with its two threads in TCPS/Client/TCPSC.cpp, taken apart into what each does.
use mathlib.Core.List.Perm
use eng_project.Base.{◌≡◌, refl, sym, ◌∙◌, ◌||◌, List, Perm, ℕ, ℤ}
use eng_project.Client.Event.{Event, cout}
use eng_project.Client.Capture.{audio_cap}
use eng_project.Client.Playback.{play_audio}
use eng_project.Client.Main.{Streams, stream}
use eng_project.Client.Threads.{
  ended, finished, Threads, Who, by_capture, by_playback, close_all, made, Run,
}
use eng_project.Client.Threads.Trace.{done_by, done, done-perm, main_last-perm}
use eng_project.Client.Threads.Parts.{Captured-at, Played-at, Did-at, Run-Parts}

module _ (sockfd cap_view play_view : ℤ) (first : List ℕ) where
  -- Side by side is one after the other: for each run of `main` with its threads, from their start to
  -- the end of `main`, in whatever order their steps come, there are rounds with which `audio_cap` and
  -- `play_audio`, each run by itself, do in order what the threads have done; the flag is set in the
  -- end exactly if one of them sets it; and all that is done in the run is, in another order, what
  -- `stream` lists for these rounds.
  pub run-stream :
      {t : Threads} {trace : List (Who × List Event)}
      → Run sockfd cap_view play_view (made first) trace t
      → t.main ≡ finished
      → (s : Streams) × (s.buffer ≡ first)
        × (done_by by_capture trace
            ≡ (audio_cap s.capture_opened sockfd cap_view first s.capture_rounds).events)
        × (done_by by_playback trace
            ≡ (play_audio s.playback_opened play_view s.playback_rounds).events)
        × (t.stop_streaming ≡ (
            (audio_cap s.capture_opened sockfd cap_view first s.capture_rounds).stop_streaming
            || (play_audio s.playback_opened play_view s.playback_rounds).stop_streaming))
        × Perm (done trace) (stream sockfd cap_view play_view s)
  unfolding stream close_all
  run-stream {t} {trace} run over =
      let h = Run-Parts sockfd cap_view play_view first run in
      let (capture_over, playback_over) = h.playback_joined over in
      let (c_opened, c_rounds, c_events, c_stop) =
        Captured-at sockfd cap_view play_view first h ended capture_over in
      let (p_opened, p_rounds, p_events, p_stop) =
        Played-at sockfd cap_view play_view first h ended playback_over in
      let s : Streams = record {
        capture_opened = c_opened;
        buffer = first;
        capture_rounds = c_rounds;
        playback_opened = p_opened;
        playback_rounds = p_rounds;
      } in
      (
        s,
        refl,
        sym c_events,
        sym p_events,
        h.flag ∙ (cc),
        Perm.trans (done-perm trace) (
            rw (Did-at sockfd cap_view play_view first h finished over, sym c_events, sym p_events)
              (main_last-perm (cout "Press Ctrl+C to stop streaming...")
                (close_all sockfd cap_view play_view)
                (audio_cap c_opened sockfd cap_view first c_rounds).events
                (play_audio p_opened play_view p_rounds).events)),
      )

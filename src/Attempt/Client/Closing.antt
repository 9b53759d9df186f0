-- ===== src/Attempt/Client/Closing.antt =====
-- How often the earlier client closes each socket.
use eng_project.Base.{
  ℕ, ◌+◌, ◌≡◌, refl, ◌∙◌, Bool, true, false, List, [], ◌∷◌, ℤ, if◌then◌else◌, arith,
}
use eng_project.Base.Loop.{run, run-none}
use eng_project.Client.Event.{Event, close, close_device, cout, eq_ℤ, closes, closes-append}
use eng_project.Client.Capture.{Reading, frames_read, recovered, broken}
use eng_project.Client.Playback
use eng_project.Client.Main.Closing.{loop-closes}
use eng_project.Attempt.Client.{
  Round, Streaming, forward, handle_reading, capture_round, audio_cap, play_audio, Streams, stream,
}

-- One for the descriptor itself, none for another.
abbrev pub once : ℤ → ℤ → ℕ
once fd s = if eq_ℤ fd s then 1 else 0

module _ (s : ℤ) where
  module _ (sockfd capture : ℤ) where
    forward-closes :
        (r : Round) (t : Streaming) (fr : ℕ) → closes s (forward sockfd capture r t fr).events ≡ 0
    unfolding forward closes
    forward-closes r t fr = ground arith

    reading-closes :
        (t : Streaming) (r : Round) (reading : Reading)
        → closes s (handle_reading sockfd capture t r reading).events ≡ 0
    unfolding handle_reading closes
    reading-closes t r (frames_read fr bytes) = forward-closes r _ fr
    reading-closes t r (recovered fr) = forward-closes r t fr
    reading-closes t r broken = refl

    round-closes :
        (t : Streaming) (r : Round) → closes s (capture_round sockfd capture t r).events ≡ 0
    unfolding capture_round
    round-closes t r = reading-closes t r r.reading

    audio_cap-closes :
        (opened : Bool) (buffer : List ℕ) (rounds : List Round)
        → closes s (audio_cap opened sockfd capture buffer rounds)
          ≡ (if opened then once capture s else 0)
    unfolding audio_cap closes
    audio_cap-closes false buffer rounds = refl
    audio_cap-closes true buffer rounds =
        let from : Streaming = record { stop_streaming = false; buffer = buffer } in
        let es : List Event = (run (capture_round sockfd capture) from rounds).events in
        closes-append s es (close_device ∷ close capture ∷ [])
        ∙ omega (
          arith,
          run-none (capture_round sockfd capture) (closes s) refl (closes-append s) round-closes
              from rounds,
        )

  play_audio-closes :
      (opened : Bool) (playback : ℤ) (rounds : List Playback.Round)
      → closes s (play_audio opened playback rounds) ≡ (if opened then once playback s else 0)
  unfolding play_audio Playback.play_audio closes
  play_audio-closes false playback rounds = refl
  play_audio-closes true playback rounds =
      closes-append s (Playback.play_loop playback rounds).events _
      ∙ rw (loop-closes playback s rounds) (omega arith)

  -- Each socket is closed by the one thread that owns it: from the start of the threads to the end of
  -- `main`, whatever the rounds meet, the socket of the server is closed once, that for captured
  -- sound once if the capture device could be opened and else never, and likewise that for playback.
  stream-closes :
      (sockfd capture playback : ℤ) (t : Streams)
      → closes s (stream sockfd capture playback t)
        ≡ (if t.capture_opened then once capture s else 0)
          + (if t.playback_opened then once playback s else 0)
          + once sockfd s
  unfolding stream closes
  stream-closes sockfd capture playback t =
      closes-append s (audio_cap t.capture_opened sockfd capture t.buffer t.capture_rounds) _
      ∙ omega (
        arith,
        audio_cap-closes sockfd capture t.capture_opened t.buffer t.capture_rounds,
        closes-append s (play_audio t.playback_opened playback t.playback_rounds)
            (close sockfd ∷ cout "Connection closed.\n" ∷ []),
        play_audio-closes t.playback_opened playback t.playback_rounds,
      )

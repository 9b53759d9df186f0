-- ===== src/Tracks/Start/Closing.antt =====
-- Which descriptors a program of Online_Tracks closes.
use eng_project.Base.{
  ℕ, suc, ◌+◌, ◌≡◌, refl, ◌∙◌, Bool, true, false, List, [], ◌∷◌, ◌++◌, ℤ, pos, if◌then◌else◌, arith,
}
use eng_project.Base.Loop.{run, run-none}
use eng_project.OnlineAv.Net.{SockaddrIn}
use eng_project.Client.Event.{eq_ℤ}
use eng_project.Client.Capture.{Reading, frames_read, recovered, broken}
use eng_project.Tracks.Stream.{
  Event, close_device, close, CaptureRound, PlayRound, Streaming, forward, handle_reading,
  capture_round, from, audio_cap, play_round, play_audio,
}
use eng_project.Tracks.Start.{Streams, stream}

-- How often a descriptor is closed.
unfoldable pub closes : ℤ → List Event → ℕ
closes s [] = 0
closes s (close t ∷ es) = if eq_ℤ t s then suc (closes s es) else closes s es
closes s (_ ∷ es) = closes s es

closes-append : (s : ℤ) (es fs : List Event) → closes s (es ++ fs) ≡ closes s es + closes s fs
unfolding closes
closes-append s [] fs = omega arith
closes-append s (close t ∷ es) fs = ground (arith, closes-append s es fs)
closes-append s (_ ∷ es) fs = closes-append s es fs

-- One for the descriptor itself, none for another.
abbrev pub once : ℤ → ℤ → ℕ
once fd s = if eq_ℤ fd s then 1 else 0

module _ (s : ℤ) where
  forward-closes :
      (a : SockaddrIn) (sent : ℤ) (t : Streaming) (n : ℕ) → closes s (forward a sent t n).events ≡ 0
  unfolding forward closes
  forward-closes a sent t n = ground arith

  reading-closes :
      (a : SockaddrIn) (t : Streaming) (sent : ℤ) (reading : Reading)
      → closes s (handle_reading a t sent reading).events ≡ 0
  unfolding handle_reading closes
  reading-closes a t sent (frames_read n bytes) = forward-closes a sent _ n
  reading-closes a t sent (recovered n) = forward-closes a sent t n
  reading-closes a t sent broken = refl

  capture-closes :
      (a : SockaddrIn) (t : Streaming) (r : CaptureRound)
      → closes s (capture_round a t r).events ≡ 0
  unfolding capture_round
  capture-closes a t r = reading-closes a t r.sent r.reading

  audio_cap-closes :
      (opened : Bool) (a : SockaddrIn) (local : ℤ) (buffer : List ℕ) (rounds : List CaptureRound)
      → closes s (audio_cap opened a local buffer rounds).events
        ≡ (if opened then once local s else 0)
  unfolding audio_cap closes
  audio_cap-closes false a local buffer rounds = refl
  audio_cap-closes true a local buffer rounds =
      closes-append s (run (capture_round a) (from buffer) rounds).events
        (close_device ∷ close local ∷ [])
      ∙ omega (
        arith,
        run-none (capture_round a) (closes s) refl (closes-append s) (capture-closes a)
            (from buffer) rounds,
      )

  play-closes : (stop : Bool) (r : PlayRound) → closes s (play_round stop r).events ≡ 0
  unfolding play_round closes
  play-closes stop r = ground arith

  play_audio-closes :
      (opened : Bool) (local : ℤ) (rounds : List PlayRound)
      → closes s (play_audio opened local rounds).events ≡ (if opened then once local s else 0)
  unfolding play_audio closes
  play_audio-closes false local rounds = refl
  play_audio-closes true local rounds =
      closes-append s (run play_round false rounds).events (close_device ∷ close local ∷ [])
      ∙ omega
          (arith, run-none play_round (closes s) refl (closes-append s) play-closes false rounds)

  -- The threads close descriptors that they were never given: whatever the rounds meet, `main` closes
  -- its socket once, and a thread whose sound device could be opened closes the descriptor that the
  -- variable happens to hold to which `main` assigned nothing, be it the socket itself.
  stream-closes_garbage :
      (sockfd : ℕ) (a : SockaddrIn) (t : Streams)
      → closes s (stream sockfd a t)
        ≡ (if t.capture_opened then once t.local_sockfd_capture s else 0)
          + (if t.playback_opened then once t.local_sockfd_playback s else 0)
          + once (pos sockfd) s
  unfolding stream closes
  stream-closes_garbage sockfd a t =
      closes-append s
        (audio_cap t.capture_opened a t.local_sockfd_capture t.buffer t.capture_rounds).events _
      ∙ omega (
        arith,
        audio_cap-closes t.capture_opened a t.local_sockfd_capture t.buffer t.capture_rounds,
        closes-append s
            (play_audio t.playback_opened t.local_sockfd_playback t.playback_rounds).events
            (close (pos sockfd) ∷ []),
        play_audio-closes t.playback_opened t.local_sockfd_playback t.playback_rounds,
      )

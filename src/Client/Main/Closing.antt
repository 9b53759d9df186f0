-- ===== src/Client/Main/Closing.antt =====
-- How often the socket of the server is closed.
use eng_project.Base.{
  ℕ, ◌≡◌, refl, ◌∙◌, Bool, Bool-cases, inl, inr, true, false, List, [], ◌∷◌, ◌++◌, ℤ, pos, arith,
  ==_refl,
}
use eng_project.Client.Event.{cout, close, eq_ℤ, closes, closes-append}
use eng_project.Client.Capture.Mirror.{audio_cap-closes}
use eng_project.Client.Capture
use eng_project.Client.Capture.{audio_cap}
use eng_project.Client.Playback
use eng_project.Client.Playback.{show_bytes, play_round, play_loop, play_audio}
use eng_project.Client.Main.{Streams, stream, close_unless_none}

module _ (view s : ℤ) where
  round-closes : (r : Playback.Round) → closes s (play_round view r).events ≡ 0
  unfolding play_round show_bytes closes
  round-closes r = ground arith

  pub loop-closes : (rounds : List Playback.Round) → closes s (play_loop view rounds).events ≡ 0
  unfolding play_loop closes
  loop-closes [] = refl
  loop-closes (r ∷ rs) = elim (Bool-cases (play_round view r).out) [
    | inl out ↦ rw out (round-closes r)
    | inr goes_on ↦ rw goes_on (
        closes-append s (play_round view r).events _
        ∙ omega (arith, round-closes r, loop-closes rs))
  ]

  play_audio-closes :
      (opened : Bool) (rounds : List Playback.Round)
      → eq_ℤ view s ≡ false
      → closes s (play_audio opened view rounds).events ≡ 0
  unfolding play_audio closes
  play_audio-closes false rounds e = refl
  play_audio-closes true rounds e =
      closes-append s (play_loop view rounds).events _ ∙ rw (loop-closes rounds, e)

module _ (fd : ℕ) where
  capture-closes :
      (opened : Bool) (cap : ℤ) (buffer : List ℕ) (rounds : List Capture.Round)
      → opened ≡ true
      → eq_ℤ cap (pos fd) ≡ false
      → closes (pos fd) (audio_cap opened (pos fd) cap buffer rounds).events ≡ 1
  capture-closes opened cap buffer rounds e other =
      rw e (audio_cap-closes (pos fd) cap (pos fd) buffer rounds ∙ rw (==_refl fd, other))

  tail-closes :
      (cap playback : ℤ)
      → eq_ℤ cap (pos fd) ≡ false
      → eq_ℤ playback (pos fd) ≡ false
      → closes (pos fd) (
          close (pos fd)
          ∷ (close_unless_none cap
              ++ (close_unless_none playback ++ cout "Connection closed.\n" ∷ [])))
        ≡ 1
  unfolding closes
  tail-closes cap playback e f = ground arith

  -- The client closes its connection twice: if the capture device could be opened, then from the
  -- start of the threads to the end of `main`, in whatever way the rounds went, the socket of the
  -- server is closed exactly twice, once by `audio_cap` and once by `main`. The sockets of the
  -- visualizer are other sockets, or none.
  pub server_socket-closed_twice :
      (cap playback : ℤ) (s : Streams)
      → s.capture_opened ≡ true
      → eq_ℤ cap (pos fd) ≡ false
      → eq_ℤ playback (pos fd) ≡ false
      → closes (pos fd) (stream (pos fd) cap playback s) ≡ 2
  unfolding stream closes
  server_socket-closed_twice cap playback s opened e f =
      closes-append (pos fd)
        (audio_cap s.capture_opened (pos fd) cap s.buffer s.capture_rounds).events _
      ∙ omega (
        arith,
        capture-closes s.capture_opened cap s.buffer s.capture_rounds opened e,
        closes-append (pos fd) (play_audio s.playback_opened playback s.playback_rounds).events (
            close (pos fd)
            ∷ (close_unless_none cap
                ++ (close_unless_none playback ++ cout "Connection closed.\n" ∷ []))),
        play_audio-closes playback (pos fd) s.playback_opened s.playback_rounds f,
        tail-closes cap playback e f,
      )

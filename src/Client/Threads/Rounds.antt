-- ===== src/Client/Threads/Rounds.antt =====
-- One round more of the loops of `audio_cap` and `play_audio` in TCPS/Client/TCPSC.cpp.
use eng_project.Base.{
  ◌≡◌, refl, Bool-cases, inl, inr, false, List, [], ◌∷◌, ◌++◌, append-nil, append_assoc, ℕ, ℤ,
  arith,
}
use eng_project.Client.Capture
use eng_project.Client.Capture.{
  Reading, frames_read, recovered, broken, forward, handle_reading, capture_round, capture_loop,
}
use eng_project.Client.Playback
use eng_project.Client.Playback.{play_round, play_loop}
use eng_project.Client.Playback.Stream.{round-stops}

module _ (sockfd cap_view : ℤ) where
  forward-goes_on :
      (r : Capture.Round) (buffer : List ℕ) (fr : ℕ)
      → (forward sockfd cap_view r buffer fr).out ≡ false
      → (forward sockfd cap_view r buffer fr).stop_streaming ≡ false
  unfolding forward
  forward-goes_on r buffer fr e = ground arith

  reading-goes_on :
      (r : Capture.Round) (buffer : List ℕ) (reading : Reading)
      → (handle_reading sockfd cap_view r buffer reading).out ≡ false
      → (handle_reading sockfd cap_view r buffer reading).stop_streaming ≡ false
  unfolding handle_reading
  reading-goes_on r buffer (frames_read fr bytes) e = forward-goes_on r _ fr e
  reading-goes_on r buffer (recovered fr) e = forward-goes_on r buffer fr e
  reading-goes_on r buffer broken e = refl

  pub round-goes_on :
      (r : Capture.Round) (buffer : List ℕ)
      → (capture_round sockfd cap_view r buffer).out ≡ false
      → (capture_round sockfd cap_view r buffer).stop_streaming ≡ false
  unfolding capture_round
  round-goes_on r buffer e = reading-goes_on r buffer r.reading e

  pub capture_loop-snoc :
      (rs : List Capture.Round) (r : Capture.Round) (buffer : List ℕ)
      → let all = capture_loop sockfd cap_view (rs ++ r ∷ []) buffer in
        let before = capture_loop sockfd cap_view rs buffer in
        let now = capture_round sockfd cap_view r before.buffer in
        before.out ≡ false
        → (all.out ≡ now.out)
          × (all.stop_streaming ≡ now.stop_streaming)
          × (all.buffer ≡ now.buffer)
          × (all.events ≡ before.events ++ now.events)
  unfolding capture_loop
  capture_loop-snoc [] r buffer e =
      ground
        (arith, round-goes_on r buffer, append-nil (capture_round sockfd cap_view r buffer).events)
  capture_loop-snoc (q ∷ rs) r buffer e =
      elim (Bool-cases (capture_round sockfd cap_view q buffer).out) [
        | inl out ↦ ground arith
        | inr stays ↦
            let now = capture_round sockfd cap_view q buffer in
            ground (
              arith,
              capture_loop-snoc rs r now.buffer,
              append_assoc now.events (capture_loop sockfd cap_view rs now.buffer).events
                  (capture_round sockfd cap_view r
                    (capture_loop sockfd cap_view rs now.buffer).buffer).events,
            )
      ]

pub play_loop-snoc :
    (play_view : ℤ) (rs : List Playback.Round) (r : Playback.Round)
    → let all = play_loop play_view (rs ++ r ∷ []) in
      let before = play_loop play_view rs in
      let now = play_round play_view r in
      before.out ≡ false
      → (all.out ≡ now.out)
        × (all.stop_streaming ≡ now.stop_streaming)
        × (all.events ≡ before.events ++ now.events)
unfolding play_loop
play_loop-snoc play_view [] r e =
    ground (arith, round-stops play_view r, append-nil (play_round play_view r).events)
play_loop-snoc play_view (q ∷ rs) r e = elim (Bool-cases (play_round play_view q).out) [
  | inl out ↦ ground arith
  | inr stays ↦ ground (
    arith,
    play_loop-snoc play_view rs r,
    append_assoc (play_round play_view q).events (play_loop play_view rs).events
        (play_round play_view r).events,
  )
]

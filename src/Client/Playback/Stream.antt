-- ===== src/Client/Playback/Stream.antt =====
-- What is played and shown of the stream, and what ends the loop.
use eng_project.Base.{
  ℕ, ◌*◌, ◌/◌, ◌%◌, ◌≡◌, ◌⊎◌, refl, sym, ap, ◌∙◌, Bool-cases, inl, inr, true, false, List, [], ◌∷◌,
  ◌++◌, append-nil, map, All, ℤ, is_pos, is_neg, is_minus_one, count, payload, length,
  take_of_length-le, arith,
}
use eng_project.Client.Event.{Event, play, eq_ℤ, messages, messages-append}
use eng_project.Client.Playback.{
  Round, is_epipe, whole_frames, show_bytes, play_round, play_loop, play_audio,
}

-- The sound that is given to the device, in order.
unfoldable pub plays : List Event → List (List ℕ)
plays [] = []
plays (play bytes ∷ es) = bytes ∷ plays es
plays (_ ∷ es) = plays es

plays-append : (es fs : List Event) → plays (es ++ fs) ≡ plays es ++ plays fs
unfolding plays
plays-append [] fs = refl
plays-append (play bytes ∷ es) fs = ap (◌∷◌ bytes) (plays-append es fs)
plays-append (_ ∷ es) fs = plays-append es fs

-- A round that goes well: bytes have come, an underrun is recovered from, the visualizer is there.
pub record IsFine (r : Round) : Type 0 where
  pub data_in : is_pos (count r.received) ≡ true
  pub writes :
      (is_neg r.written ≡ false) ⊎ ((is_epipe r.written ≡ true) × (is_neg r.prepared ≡ false))
  pub shows : is_minus_one r.shown ≡ false

module _ (view : ℤ) (self : eq_ℤ view view ≡ true) where
  round-fine :
      (r : Round)
      → IsFine r
      → ((play_round view r).out ≡ false)
        × (plays (play_round view r).events ≡ whole_frames (payload r.received) ∷ [])
        × (messages view (play_round view r).events ≡ payload r.received ∷ [])
  unfolding play_round show_bytes plays messages
  round-fine r fine = ground (arith, self)

  loop-fine :
      (rounds : List Round)
      → All IsFine rounds
      → (plays (play_loop view rounds).events ≡ map (λ r. whole_frames (payload r.received)) rounds)
        × (messages view (play_loop view rounds).events ≡ map (λ r. payload r.received) rounds)
        × ((play_loop view rounds).stop_streaming ≡ false)
  unfolding play_loop plays messages
  loop-fine [] h = (refl, refl, refl)
  loop-fine (r ∷ rs) h =
      let (goes_on, sound, shown) = round-fine r h.0 in
      let (sounds, all_shown, running) = loop-fine rs h.1 in
      rw goes_on (
        plays-append (play_round view r).events _ ∙ rw (sound, sounds),
        messages-append view (play_round view r).events _ ∙ rw (shown, all_shown),
        running,
      )

  -- The stream is played and shown: in rounds that go well (bytes come, a write fails at most by an
  -- underrun that is recovered from, the visualizer takes the bytes) the device is given of each
  -- message its whole frames of 4 bytes and nothing else, the visualizer is given each message
  -- unchanged, and `stop_streaming` is not set.
  pub play_audio-fine :
      (rounds : List Round)
      → All IsFine rounds
      → (plays (play_audio true view rounds).events
          ≡ map (λ r. whole_frames (payload r.received)) rounds)
        × (messages view (play_audio true view rounds).events
            ≡ map (λ r. payload r.received) rounds)
        × ((play_audio true view rounds).stop_streaming ≡ false)
  unfolding play_audio plays messages
  play_audio-fine rounds h =
      let (sounds, all_shown, running) = loop-fine rounds h in
      (
        plays-append (play_loop view rounds).events _ ∙ (append-nil _ ∙ sounds),
        messages-append view (play_loop view rounds).events _ ∙ (append-nil _ ∙ all_shown),
        running,
      )

pub round-stops :
    (view : ℤ) (r : Round) → (play_round view r).out ≡ (play_round view r).stop_streaming
unfolding play_round show_bytes
round-stops view r = ground arith

-- `play_audio` leaves its loop by itself exactly when it sets `stop_streaming`, whatever the rounds
-- meet: after each `break` the capturing thread stops too.
play_loop-stops :
    (view : ℤ) (rounds : List Round)
    → (play_loop view rounds).out ≡ (play_loop view rounds).stop_streaming
unfolding play_loop
play_loop-stops view [] = refl
play_loop-stops view (r ∷ rs) = elim (Bool-cases (play_round view r).out) [
  | inl out ↦ rw out (sym out ∙ round-stops view r)
  | inr goes_on ↦ rw goes_on (play_loop-stops view rs)
]

pub whole_frames-eq : (bytes : List ℕ) → length bytes % 4 ≡ 0 → whole_frames bytes ≡ bytes
whole_frames-eq bytes h = take_of_length-le (length bytes / 4 * 4) bytes (omega arith)

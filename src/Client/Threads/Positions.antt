-- ===== src/Client/Threads/Positions.antt =====
-- What a thread of TCPS/Client/TCPSC.cpp has done by each of its positions.
use eng_project.Base.{
  ◌≡◌, refl, sym, ap, Bool, true, false, List, [], ◌∷◌, ◌++◌, ℕ, ℤ, if◌then◌else◌,
}
use eng_project.Client.Event.{Event, close, close_device, cerr}
use eng_project.Client.Capture
use eng_project.Client.Capture.{capture_round, capture_loop, audio_cap}
use eng_project.Client.Playback
use eng_project.Client.Playback.{play_round, play_loop, play_audio}
use eng_project.Client.Playback.Stream.{round-stops}
use eng_project.Client.Threads.{Position, opening, testing, working, closing, ended}
use eng_project.Client.Threads.Rounds.{round-goes_on, capture_loop-snoc, play_loop-snoc}

module _ (sockfd cap_view : ℤ) (first : List ℕ) where
  abbrev pub Capturing : (buffer : List ℕ) → List Event → (stop : Bool) → Type 0
  Capturing buffer es stop =
      (rs : List Capture.Round) × ((capture_loop sockfd cap_view rs first).out ≡ false)
      × ((capture_loop sockfd cap_view rs first).events ≡ es)
      × ((capture_loop sockfd cap_view rs first).buffer ≡ buffer)
      × ((capture_loop sockfd cap_view rs first).stop_streaming ≡ stop)
      × (stop ≡ false)

  -- What `audio_cap` has done by a position is what it does with the rounds it has begun.
  abbrev pub Captured : Position → (buffer : List ℕ) → List Event → (stop : Bool) → Type 0
  Captured opening buffer es stop = (es ≡ []) × (stop ≡ false) × (buffer ≡ first)
  Captured testing buffer es stop = Capturing buffer es stop
  Captured working buffer es stop = Capturing buffer es stop
  Captured closing buffer es stop =
      (rs : List Capture.Round) × ((capture_loop sockfd cap_view rs first).events ≡ es)
      × ((capture_loop sockfd cap_view rs first).stop_streaming ≡ stop)
  Captured ended buffer es stop =
      (opened : Bool) × (rs : List Capture.Round) × ((audio_cap opened sockfd cap_view first
          rs).events
        ≡ es)
      × ((audio_cap opened sockfd cap_view first rs).stop_streaming ≡ stop)

  pub Captured-opens :
      (buffer : List ℕ) (es : List Event) (stop : Bool)
      → Captured opening buffer es stop
      → Captured testing buffer es stop
  unfolding capture_loop
  Captured-opens buffer es stop (none_yet, off, same_buffer) =
      ([], refl, sym none_yet, sym same_buffer, sym off, off)

  pub Captured-fails :
      (buffer : List ℕ) (es : List Event) (stop : Bool)
      → Captured opening buffer es stop
      → Captured ended buffer (es ++ cerr "capture device error" ∷ []) stop
  unfolding audio_cap
  Captured-fails buffer es stop (none_yet, off, same_buffer) = (
    false,
    [],
    ap (λ (l : List Event). l ++ cerr "capture device error" ∷ []) (sym none_yet),
    sym off,
  )

  pub Captured-tests :
      (flag : Bool) (buffer : List ℕ) (es : List Event) (stop : Bool)
      → Captured testing buffer es stop
      → Captured (if flag then closing else working) buffer es stop
  Captured-tests false buffer es stop h = h
  Captured-tests true buffer es stop (rs, inside, did, keeps, sets, off) = (rs, did, sets)

  Captured-looped :
      (rs : List Capture.Round) (out : Bool) (buffer : List ℕ) (es : List Event) (stop : Bool)
      → (capture_loop sockfd cap_view rs first).out ≡ out
      → (capture_loop sockfd cap_view rs first).events ≡ es
      → (capture_loop sockfd cap_view rs first).buffer ≡ buffer
      → (capture_loop sockfd cap_view rs first).stop_streaming ≡ stop
      → (out ≡ false → stop ≡ false)
      → Captured (if out then closing else testing) buffer es stop
  Captured-looped rs false buffer es stop inside did keeps sets off =
      (rs, inside, did, keeps, sets, off refl)
  Captured-looped rs true buffer es stop inside did keeps sets off = (rs, did, sets)

  pub Captured-works :
      (r : Capture.Round) (buffer : List ℕ) (es : List Event) (stop : Bool)
      → Captured working buffer es stop
      → let now = capture_round sockfd cap_view r buffer in
        Captured
          (if now.out then closing else testing)
          now.buffer
          (es ++ now.events)
          now.stop_streaming
  Captured-works r buffer es stop (rs, inside, did, keeps, sets, off) =
      let now = capture_round sockfd cap_view r buffer in
      let (same_out, same_stop, same_buffer, more) =
        capture_loop-snoc sockfd cap_view rs r first inside in
      Captured-looped (rs ++ r ∷ []) now.out now.buffer (es ++ now.events) now.stop_streaming (cc)
        (cc) (cc) (cc) (round-goes_on sockfd cap_view r buffer)

  pub Captured-closes :
      (buffer : List ℕ) (es : List Event) (stop : Bool)
      → Captured closing buffer es stop
      → Captured ended buffer (es ++ close_device ∷ close sockfd ∷ close cap_view ∷ []) stop
  unfolding audio_cap
  Captured-closes buffer es stop (rs, did, sets) = (
    true,
    rs,
    ap (λ (l : List Event). l ++ close_device ∷ close sockfd ∷ close cap_view ∷ []) did,
    sets,
  )

module _ (play_view : ℤ) where
  abbrev pub Looping : List Event → (stop : Bool) → Type 0
  Looping es stop =
      (rs : List Playback.Round) × ((play_loop play_view rs).out ≡ false)
      × ((play_loop play_view rs).events ≡ es)
      × ((play_loop play_view rs).stop_streaming ≡ stop)
      × (stop ≡ false)

  -- The same for `play_audio`.
  abbrev pub Played : Position → List Event → (stop : Bool) → Type 0
  Played opening es stop = (es ≡ []) × (stop ≡ false)
  Played testing es stop = Looping es stop
  Played working es stop = Looping es stop
  Played closing es stop =
      (rs : List Playback.Round) × ((play_loop play_view rs).events ≡ es)
      × ((play_loop play_view rs).stop_streaming ≡ stop)
  Played ended es stop =
      (opened : Bool) × (rs : List Playback.Round) × ((play_audio opened play_view rs).events ≡ es)
      × ((play_audio opened play_view rs).stop_streaming ≡ stop)

  pub Played-opens :
      (es : List Event) (stop : Bool) → Played opening es stop → Played testing es stop
  unfolding play_loop
  Played-opens es stop (none_yet, off) = ([], refl, sym none_yet, sym off, off)

  pub Played-fails :
      (es : List Event) (stop : Bool)
      → Played opening es stop
      → Played ended (es ++ cerr "playback device error" ∷ []) stop
  unfolding play_audio
  Played-fails es stop (none_yet, off) = (
    false,
    [],
    ap (λ (l : List Event). l ++ cerr "playback device error" ∷ []) (sym none_yet),
    sym off,
  )

  pub Played-tests :
      (flag : Bool) (es : List Event) (stop : Bool)
      → Played testing es stop
      → Played (if flag then closing else working) es stop
  Played-tests false es stop h = h
  Played-tests true es stop (rs, inside, did, sets, off) = (rs, did, sets)

  Played-looped :
      (rs : List Playback.Round) (out : Bool) (es : List Event) (stop : Bool)
      → (play_loop play_view rs).out ≡ out
      → (play_loop play_view rs).events ≡ es
      → (play_loop play_view rs).stop_streaming ≡ stop
      → out ≡ stop
      → Played (if out then closing else testing) es stop
  Played-looped rs false es stop inside did sets both = (rs, inside, did, sets, sym both)
  Played-looped rs true es stop inside did sets both = (rs, did, sets)

  pub Played-works :
      (r : Playback.Round) (es : List Event) (stop : Bool)
      → Played working es stop
      → let now = play_round play_view r in
        Played (if now.out then closing else testing) (es ++ now.events) now.stop_streaming
  Played-works r es stop (rs, inside, did, sets, off) =
      let now = play_round play_view r in
      let (same_out, same_stop, more) = play_loop-snoc play_view rs r inside in
      Played-looped (rs ++ r ∷ []) now.out (es ++ now.events) now.stop_streaming same_out (cc)
        same_stop (round-stops play_view r)

  pub Played-closes :
      (es : List Event) (stop : Bool)
      → Played closing es stop
      → Played ended (es ++ close_device ∷ close play_view ∷ []) stop
  unfolding play_audio
  Played-closes es stop (rs, did, sets) =
      (true, rs, ap (λ (l : List Event). l ++ close_device ∷ close play_view ∷ []) did, sets)

-- ===== src/Client/Capture/Mirror.antt =====
-- The visualizer is shown what the server is sent.
use eng_project.Base.{
  ℕ, ◌+◌, ◌*◌, ◌≡◌, refl, ap, ap₂, ◌∙◌, sym, Bool, Bool-cases, inl, inr, true, false, List, [], ◌∷◌,
  ◌++◌, map, ℤ, is_minus_one, if◌then◌else◌, take, drop, append-nil, append_assoc, arith, subst,
  drop-append_of_length,
}
use eng_project.Base.Bytes.{le_bytes, length-le_bytes}
use eng_project.OnlineAv.Fragment.{overlay}
use mathlib.Core.List.{map-append}
use eng_project.Client.Event.{Event, eq_ℤ, messages, messages-append, closes, closes-append}
use eng_project.Client.Capture.{
  buffer_size, Reading, handle_reading, frames_read, recovered, broken, Round, Capturing, forward,
  capture_round, capture_loop, audio_cap,
}

-- The sound in a packet for the visualizer, and the clock in it.
abbrev pub sound_of : List ℕ → List ℕ
sound_of packet = drop 8 packet

pub packet_sound : (now : ℕ) (chunk : List ℕ) → sound_of (le_bytes 8 now ++ chunk) ≡ chunk
packet_sound now chunk = drop-append_of_length 8 (le_bytes 8 now) chunk (length-le_bytes 8 now)

true≢false : ¬ (true ≡ false)
true≢false e = cc

module _ (sockfd view : ℤ) (here : eq_ℤ sockfd sockfd ≡ true) (there : eq_ℤ view view ≡ true)
    (differ : eq_ℤ sockfd view ≡ false) (differ' : eq_ℤ view sockfd ≡ false) where
  -- What the visualizer gets is a prefix of what the server gets, and all of it unless a `send`
  -- has failed.
  abbrev Mirrors : List Event → Bool → Type 0
  Mirrors es stop =
      (rest : List (List ℕ)) × (map sound_of (messages view es) ++ rest ≡ messages sockfd es)
      × (stop ≡ false → rest ≡ [])

  abbrev Good : Capturing → Type 0
  Good c = Mirrors c.events c.stop_streaming × (c.out ≡ false → c.stop_streaming ≡ false)

  forward-Good : (r : Round) (buffer : List ℕ) (fr : ℕ) → Good (forward sockfd view r buffer fr)
  unfolding forward messages
  forward-Good r buffer fr = elim (Bool-cases (is_minus_one r.sent)) [
    | inl failed ↦
        rw (failed, here, differ)
          (
            (take (fr * 2 * 2) buffer ∷ [], refl, λ e. absurd (true≢false e)),
            λ e. absurd (true≢false e),
          )
    | inr ok ↦ elim (Bool-cases (is_minus_one r.shown)) [
      | inl failed ↦
          rw (ok, failed, here, there, differ, differ')
            (
              ([], ap (λ c. c ∷ []) (packet_sound r.now (take (fr * 2 * 2) buffer)), λ e. refl),
              λ e. absurd (true≢false e),
            )
      | inr fine ↦
          rw (ok, fine, here, there, differ, differ')
            (
              ([], ap (λ c. c ∷ []) (packet_sound r.now (take (fr * 2 * 2) buffer)), λ e. refl),
              λ e. refl,
            )
    ]
  ]

  reading-Good :
      (r : Round) (buffer : List ℕ) (reading : Reading)
      → Good (handle_reading sockfd view r buffer reading)
  unfolding handle_reading messages
  reading-Good r buffer (frames_read fr bytes) =
      forward-Good r (overlay buffer_size bytes buffer) fr
  reading-Good r buffer (recovered fr) = forward-Good r buffer fr
  reading-Good r buffer broken = (([], refl, λ e. refl), λ e. refl)

  Mirrors-append :
      (es fs : List Event) (stop : Bool)
      → Mirrors es false
      → Mirrors fs stop
      → Mirrors (es ++ fs) stop
  Mirrors-append es fs stop (more, e, h) (rest, f, k) = (
    rest,
    ap (λ (l : List (List ℕ)). map sound_of l ++ rest) (messages-append view es fs)
        ∙ (ap (λ (l : List (List ℕ)). l ++ rest)
              (map-append sound_of (messages view es) (messages view fs))
            ∙ (append_assoc (map sound_of (messages view es)) (map sound_of (messages view fs)) rest
                ∙ (ap₂ ◌++◌ all_shown f ∙ sym (messages-append sockfd es fs)))),
    k,
  )
    where
      all_shown : map sound_of (messages view es) ≡ messages sockfd es
      all_shown =
          sym (append-nil _) ∙ (ap (◌++◌ (map sound_of (messages view es))) (sym (h refl)) ∙ e)

  loop-Mirrors :
      (rounds : List Round) (buffer : List ℕ)
      → Mirrors
          (capture_loop sockfd view rounds buffer).events
          (capture_loop sockfd view rounds buffer).stop_streaming
  unfolding capture_loop capture_round messages
  loop-Mirrors [] buffer = ([], refl, λ e. refl)
  loop-Mirrors (r ∷ rs) buffer =
      let now = handle_reading sockfd view r buffer r.reading in
      let good : Good now = reading-Good r buffer r.reading in
      elim (Bool-cases now.out) [
        | inl out ↦ rw out good.0
        | inr goes_on ↦ rw goes_on (
            Mirrors-append now.events _ _ (subst (Mirrors now.events) (good.1 goes_on) good.0)
              (loop-Mirrors rs now.buffer))
      ]

  -- The visualizer sees what the server hears: whatever the rounds meet, the packets for the
  -- visualizer, without their timestamps, are the first of the messages to the server, in order, and
  -- they are all of them if `stop_streaming` is not set in the end. The two sockets differ.
  pub audio_cap-mirrors :
      (buffer : List ℕ) (rounds : List Round)
      → (rest : List (List ℕ)) × (map sound_of
              (messages view (audio_cap true sockfd view buffer rounds).events)
            ++ rest
          ≡ messages sockfd (audio_cap true sockfd view buffer rounds).events)
        × ((audio_cap true sockfd view buffer rounds).stop_streaming ≡ false → rest ≡ [])
  unfolding audio_cap messages
  audio_cap-mirrors buffer rounds =
      let (rest, e, k) = loop-Mirrors rounds buffer in
      let es : List Event = (capture_loop sockfd view rounds buffer).events in
      (
        rest,
        ap (λ (l : List (List ℕ)). map sound_of l ++ rest)
              (messages-append view es _ ∙ append-nil _)
            ∙ (e ∙ sym (messages-append sockfd es _ ∙ append-nil _)),
        k,
      )

module _ (sockfd view s : ℤ) where
  forward-closes :
      (r : Round) (buffer : List ℕ) (fr : ℕ) → closes s (forward sockfd view r buffer fr).events ≡ 0
  unfolding forward closes
  forward-closes r buffer fr = ground arith

  reading-closes :
      (r : Round) (buffer : List ℕ) (reading : Reading)
      → closes s (handle_reading sockfd view r buffer reading).events ≡ 0
  unfolding handle_reading closes
  reading-closes r buffer (frames_read fr bytes) =
      forward-closes r (overlay buffer_size bytes buffer) fr
  reading-closes r buffer (recovered fr) = forward-closes r buffer fr
  reading-closes r buffer broken = refl

  loop-closes :
      (rounds : List Round) (buffer : List ℕ)
      → closes s (capture_loop sockfd view rounds buffer).events ≡ 0
  unfolding capture_loop capture_round closes
  loop-closes [] buffer = refl
  loop-closes (r ∷ rs) buffer =
      let now = handle_reading sockfd view r buffer r.reading in
      elim (Bool-cases now.out) [
        | inl out ↦ rw out (reading-closes r buffer r.reading)
        | inr goes_on ↦ rw goes_on (
            closes-append s now.events _
            ∙ omega (arith, reading-closes r buffer r.reading, loop-closes rs now.buffer))
      ]

  pub audio_cap-closes :
      (buffer : List ℕ) (rounds : List Round)
      → closes s (audio_cap true sockfd view buffer rounds).events
        ≡ (if eq_ℤ sockfd s then 1 else 0) + (if eq_ℤ view s then 1 else 0)
  unfolding audio_cap closes
  audio_cap-closes buffer rounds =
      closes-append s (capture_loop sockfd view rounds buffer).events _
      ∙ rw (loop-closes rounds buffer) (ground arith)

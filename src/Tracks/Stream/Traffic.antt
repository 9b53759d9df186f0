-- ===== src/Tracks/Stream/Traffic.antt =====
-- Online_Tracks: what goes out of rounds of capture, and what is played of datagrams that come in.
use eng_project.Base.{
  ◌⊎◌, ◌%◌, ℕ, suc, ◌*◌, ◌<◌, ◌≡◌, refl, ap, ◌∙◌, true, false, List, [], ◌∷◌, ◌++◌, map, ℤ, is_neg,
  is_minus_one, got, if◌then◌else◌, All, length, take, arith, ==_refl,
}
use eng_project.Base.Loop.{run, run-map, run_next}
use eng_project.OnlineAv.Net.{SockaddrIn, same_addr}
use eng_project.OnlineAv.Fragment.{overlay}
use eng_project.Client.Capture.{buffer_size, Reading, frames_read, recovered, broken}
use eng_project.Client.Playback.{whole_frames, is_epipe}
use eng_project.Client.Playback.Stream.{whole_frames-eq}
use eng_project.Client.Capture.Sound.{sound, HasSound, captured}
use eng_project.Tracks.Stream.{
  Event, datagram, play, CaptureRound, Streaming, forward, handle_reading, capture_round, PlayRound,
  play_round,
}

-- The datagrams for one address, and the sound that is given to the device, in order.
unfoldable pub mail : SockaddrIn → List Event → List (List ℕ)
mail a [] = []
mail a (datagram b packet ∷ es) = if same_addr b a then packet ∷ mail a es else mail a es
mail a (_ ∷ es) = mail a es

unfoldable pub plays : List Event → List (List ℕ)
plays [] = []
plays (play bytes ∷ es) = bytes ∷ plays es
plays (_ ∷ es) = plays es

pub mail-append : (a : SockaddrIn) (es fs : List Event) → mail a (es ++ fs) ≡ mail a es ++ mail a fs
unfolding mail
mail-append a [] fs = refl
mail-append a (datagram b packet ∷ es) fs = ground (arith, mail-append a es fs)
mail-append a (_ ∷ es) fs = mail-append a es fs

pub plays-append : (es fs : List Event) → plays (es ++ fs) ≡ plays es ++ plays fs
unfolding plays
plays-append [] fs = refl
plays-append (play bytes ∷ es) fs = ap (◌∷◌ bytes) (plays-append es fs)
plays-append (_ ∷ es) fs = plays-append es fs

-- A round of capture that goes well, and is sent.
abbrev pub IsFine : CaptureRound → Type 0
IsFine r = HasSound r.reading × (is_minus_one r.sent ≡ false)

self : (a : SockaddrIn) → same_addr a a ≡ true
self a = rw (==_refl a.s_addr, ==_refl a.sin_port) refl

abbrev pub Runs : Streaming → Type 0
Runs s = s.stop_streaming ≡ false

module _ (a : SockaddrIn) where
  forward-fine :
      (sent : ℤ) (s : Streaming) (n : ℕ)
      → Runs s
      → is_minus_one sent ≡ false
      → ((forward a sent s n).out ≡ false)
        × Runs (forward a sent s n).state
        × (mail a (forward a sent s n).events ≡ take (n * 2 * 2) s.buffer ∷ [])
  unfolding forward mail
  forward-fine sent s n runs ok = rw (ok, self a) (refl, runs, refl)

  reading-fine :
      (s : Streaming) (sent : ℤ) (reading : Reading)
      → Runs s
      → HasSound reading
      → is_minus_one sent ≡ false
      → ((handle_reading a s sent reading).out ≡ false)
        × Runs (handle_reading a s sent reading).state
        × (mail a (handle_reading a s sent reading).events ≡ sound reading ∷ [])
  unfolding handle_reading
  reading-fine s sent (frames_read n bytes) runs h ok =
      let (goes_on, still, sent_on) =
        forward-fine sent (record s { buffer = overlay buffer_size bytes s.buffer }) n runs ok in
      (goes_on, still, sent_on ∙ ap (λ (c : List ℕ). c ∷ []) (captured n bytes s.buffer h.2 h.1))
  reading-fine s sent (recovered n) runs h ok = absurd h
  reading-fine s sent broken runs h ok = absurd h

  -- What goes out of rounds that go well, from any state in which the flag is not set.
  pub sent_sound :
      (s : Streaming) (rounds : List CaptureRound)
      → Runs s
      → All IsFine rounds
      → ((run (capture_round a) s rounds).out ≡ false)
        × Runs (run (capture_round a) s rounds).state
        × (mail a (run (capture_round a) s rounds).events
            ≡ map (λ (r : CaptureRound). sound r.reading) rounds)
  unfolding capture_round mail
  sent_sound =
      run-map (capture_round a) {P = Runs} {Q = IsFine} (mail a) (λ r. sound r.reading) refl
        (mail-append a) λ s r runs fine. reading-fine s r.sent r.reading runs fine.0 fine.1

  -- An overrun that `snd_pcm_recover` puts right gives no frames, and an empty datagram goes out.
  overrun_round :
      (s : Streaming) (r : CaptureRound)
      → r.reading ≡ recovered 0
      → is_minus_one r.sent ≡ false
      → ((capture_round a s r).out ≡ false) × (mail a (capture_round a s r).events ≡ [] ∷ [])
  unfolding capture_round handle_reading forward mail
  overrun_round s r e ok = rw (e, handle_reading) (rw (ok, self a) (refl, refl))

  pub overrun_sends_empty :
      (s : Streaming) (r : CaptureRound) (more : List CaptureRound)
      → r.reading ≡ recovered 0
      → is_minus_one r.sent ≡ false
      → (l : List (List ℕ)) × (mail a (run (capture_round a) s (r ∷ more)).events ≡ [] ∷ l)
  overrun_sends_empty s r more e ok =
      let (goes_on, empty) = overrun_round s r e ok in
      (
        mail a (run (capture_round a) (capture_round a s r).state more).events,
        ap (mail a) (run_next (capture_round a) s r more goes_on).0
            ∙ (mail-append a (capture_round a s r).events _ ∙ rw empty refl),
      )

-- The datagrams that arrive, and the results of `snd_pcm_writei` and `snd_pcm_prepare` for each.
abbrev pub deliver : (ℕ → ℤ × ℤ) → ℕ → List (List ℕ) → List PlayRound
deliver results i [] = []
deliver results i (packet ∷ packets) =
    record { received = got packet; written = (results i).0; prepared = (results i).1 }
    ∷ deliver results (suc i) packets

-- The sound is written, or an underrun is recovered from.
abbrev pub IsWritten : ℤ × ℤ → Type 0
IsWritten (written, prepared) =
    (is_neg written ≡ false) ⊎ ((is_epipe written ≡ true) × (is_neg prepared ≡ false))

abbrev pub IsPacket : List ℕ → Type 0
IsPacket packet = (0 < length packet) × (length packet % 4 ≡ 0)

module _ (results : ℕ → ℤ × ℤ) (well : (i : ℕ) → IsWritten (results i)) where
  round-played :
      (packet : List ℕ) (written prepared : ℤ)
      → 0 < length packet
      → IsWritten (written, prepared)
      → let r : PlayRound = record {
        received = got packet;
        written = written;
        prepared = prepared;
      } in
        ((play_round false r).out ≡ false)
        × ((play_round false r).state ≡ false)
        × (plays (play_round false r).events ≡ whole_frames packet ∷ [])
  unfolding play_round plays
  round-played packet written prepared some_bytes w = ground arith

  -- Datagrams that can be played, and then others.
  pub packets-played :
      (i : ℕ) (packets more : List (List ℕ))
      → All IsPacket packets
      → (j : ℕ) × (plays (run play_round false (deliver results i (packets ++ more))).events
          ≡ packets ++ plays (run play_round false (deliver results j more)).events)
        × ((run play_round false (deliver results i (packets ++ more))).state
            ≡ (run play_round false (deliver results j more)).state)
  packets-played i [] more h = (i, refl, refl)
  packets-played i (packet ∷ packets) more h =
      let (goes_on, runs, played) =
        round-played packet (results i).0 (results i).1 h.0.0 (well i) in
      let (j, later, state) = packets-played (suc i) packets more h.1 in
      let r : PlayRound = record {
        received = got packet;
        written = (results i).0;
        prepared = (results i).1;
      } in
      let (events, state') =
        run_next play_round false r (deliver results (suc i) (packets ++ more)) goes_on in
      (
        j,
        ap plays events
            ∙ (plays-append (play_round false r).events _
                ∙ rw (played, runs, whole_frames-eq packet h.0.1, later) refl),
        state' ∙ rw (runs, state) refl,
      )

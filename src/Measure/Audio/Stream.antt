-- ===== src/Measure/Audio/Stream.antt =====
-- What a measuring client plays of the stream that another one sends.
use eng_project.Base.{
  ℕ, ◌*◌, ◌<◌, ◌%◌, ◌≡◌, refl, ap, ◌∙◌, true, false, List, [], ◌∷◌, ◌++◌, map, append-nil, ℤ,
  is_minus_one, Received, failed, got, payload, length, All, arith, take,
}
use mathlib.Core.List.{flatten}
use eng_project.Base.Bytes.{le_bytes}
use eng_project.Base.Loop.{run, run-map}
use eng_project.OnlineAv.Fragment.{overlay}
use eng_project.Client.Capture.{Reading, frames_read, recovered, broken}
use eng_project.Client.Capture.Sound.{sound, HasSound, captured}
use eng_project.Client.Playback.{whole_frames}
use eng_project.Client.Playback.Stream.{whole_frames-eq}
use eng_project.Measure.Audio.{
  buffsize, Event, send, play, Round, send_packet, handle_reading, send_round,
  send_audio_with_metrics, PlayRound, play_round, receive_and_play_audio,
}

-- What is sent, and what is given to the sound device, in order.
unfoldable pub packets : List Event → List (List ℕ)
packets [] = []
packets (send bytes ∷ es) = bytes ∷ packets es
packets (_ ∷ es) = packets es

unfoldable pub plays : List Event → List (List ℕ)
plays [] = []
plays (play bytes ∷ es) = bytes ∷ plays es
plays (_ ∷ es) = plays es

packets-append : (es fs : List Event) → packets (es ++ fs) ≡ packets es ++ packets fs
unfolding packets
packets-append [] fs = refl
packets-append (send bytes ∷ es) fs = ap (◌∷◌ bytes) (packets-append es fs)
packets-append (_ ∷ es) fs = packets-append es fs

plays-append : (es fs : List Event) → plays (es ++ fs) ≡ plays es ++ plays fs
unfolding plays
plays-append [] fs = refl
plays-append (play bytes ∷ es) fs = ap (◌∷◌ bytes) (plays-append es fs)
plays-append (_ ∷ es) fs = plays-append es fs

-- A round of capture that goes well and is sent.
abbrev pub IsFine : Round → Type 0
IsFine r = HasSound r.reading × (is_minus_one r.sent ≡ false)

-- Some bytes came, and no frame is cut.
abbrev pub IsWhole : PlayRound → Type 0
IsWhole r = (0 < length (payload r.received)) × (length (payload r.received) % 4 ≡ 0)

-- The time, and the sound behind it.
abbrev pub timed : Round → List ℕ
timed r = le_bytes 8 r.ms_timestamp ++ sound r.reading

sent_packet :
    (buffer : List ℕ) (r : Round) (frames : ℕ)
    → is_minus_one r.sent ≡ false
    → ((send_packet buffer r frames).out ≡ false)
      × Unit {0}
      × (packets (send_packet buffer r frames).events
          ≡ (le_bytes 8 r.ms_timestamp ++ take (frames * 2 * 2) buffer) ∷ [])
unfolding send_packet packets
sent_packet buffer r frames ok = rw ok (refl, tt, refl)

reading-sent :
    (buffer : List ℕ) (r : Round) (reading : Reading)
    → HasSound reading
    → is_minus_one r.sent ≡ false
    → ((handle_reading buffer r reading).out ≡ false)
      × Unit {0}
      × (packets (handle_reading buffer r reading).events
          ≡ (le_bytes 8 r.ms_timestamp ++ sound reading) ∷ [])
unfolding handle_reading
reading-sent buffer r (frames_read n bytes) h ok =
    let (goes_on, u, went) = sent_packet (overlay buffsize bytes buffer) r n ok in
    (
      goes_on,
      tt,
      went
          ∙ ap (λ (c : List ℕ). (le_bytes 8 r.ms_timestamp ++ c) ∷ [])
              (captured n bytes buffer h.2 h.1),
    )
reading-sent buffer r (recovered n) h ok = absurd h
reading-sent buffer r broken h ok = absurd h

packets-send_audio :
    (buffer : List ℕ) (rounds : List Round)
    → All IsFine rounds
    → packets (send_audio_with_metrics true buffer rounds) ≡ map timed rounds
unfolding send_audio_with_metrics send_round packets
packets-send_audio buffer rounds fine =
    packets-append (run send_round buffer rounds).events _
    ∙ (append-nil _
        ∙ (run-map send_round {P = λ b. Unit {0}} {Q = IsFine} packets timed refl packets-append
            (λ b r u h. reading-sent b r r.reading h.0 h.1) buffer rounds tt fine).2)

received-played :
    (written : ℤ) (received : Received)
    → 0 < length (payload received)
    → let r : PlayRound = record { received = received; written = written } in
      ((play_round tt r).out ≡ false)
      × Unit {0}
      × (plays (play_round tt r).events ≡ whole_frames (payload received) ∷ [])
unfolding play_round plays
received-played written failed h = absurd (omega arith)
received-played written (got bytes) h = ground arith

wholes-eq :
    (rounds : List PlayRound)
    → All IsWhole rounds
    → map (λ (r : PlayRound). whole_frames (payload r.received)) rounds
      ≡ map (λ (r : PlayRound). payload r.received) rounds
wholes-eq [] h = refl
wholes-eq (r ∷ rs) h = rw (whole_frames-eq (payload r.received) h.0.1, wholes-eq rs h.1) refl

-- The times are heard: let each round of a sender capture sound (between 1 and 1024 frames) and send
-- it. If a receiver gets the bytes of this stream, in whatever pieces of whole frames of 4 bytes,
-- then its sound device is given, in order and whatever the writes return, not the captured sound
-- alone but the whole stream, with the 8 bytes of the time before the sound of each round.
times-played :
    (buffer : List ℕ) (rounds : List Round) (received : List PlayRound)
    → All IsFine rounds
    → All IsWhole received
    → flatten (map (λ (r : PlayRound). payload r.received) received)
      ≡ flatten (packets (send_audio_with_metrics true buffer rounds))
    → flatten (plays (receive_and_play_audio true received)) ≡ flatten (map timed rounds)
unfolding receive_and_play_audio plays
times-played buffer rounds received fine whole stream =
    ap flatten (
      plays-append (run play_round tt received).events _
      ∙ (append-nil _
          ∙ ((run-map play_round {P = λ u. Unit {0}} {Q = IsWhole} plays
                (λ r. whole_frames (payload r.received)) refl plays-append
                (λ u r t h. received-played r.written r.received h.0) tt received tt whole).2
              ∙ wholes-eq received whole)))
    ∙ (stream ∙ ap flatten (packets-send_audio buffer rounds fine))

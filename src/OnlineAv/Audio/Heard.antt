-- ===== src/OnlineAv/Audio/Heard.antt =====
-- What a peer hears of what is recorded.
use eng_project.Base.{
  ℕ, suc, ◌+◌, ◌%◌, ◌^◌, ◌≡◌, refl, sym, ap, ap₂, ◌∙◌, Bool, Bool-cases, inl, inr, List, [], ◌∷◌,
  ◌++◌, append-nil, append_assoc, map, ℤ, is_neg, if◌then◌else◌, got, length, All, arith,
}
use eng_project.OnlineAv.Net.{SockaddrIn, Sendto, mail}
use eng_project.OnlineAv.Fragment.{overlay, overlay_full}
use eng_project.Base.Loss.{survive, survive-map, All-survive}
use eng_project.OnlineAv.Audio.{
  AudioPacket, audio_size, sizeof_packet, to_image, Recording, read_error, samples, Recorder,
  record_and_send, Playing, Sound, played, prepare, complaint, Speaker, play_round, play_audio,
}
use eng_project.OnlineAv.Audio.Wire.{IsWire, length-to_image, play_round-packet}
use eng_project.OnlineAv.Audio.Rounds.{
  ListedOnce, IsReady, packets, packets-IsWire, mail-record_and_send,
}

-- The samples that are given to the sound device, in order.
unfoldable pub heard : List Sound → List (List ℕ)
heard [] = []
heard (played bytes ∷ sounds) = bytes ∷ heard sounds
heard (_ ∷ sounds) = heard sounds

heard-append : (s t : List Sound) → heard (s ++ t) ≡ heard s ++ heard t
unfolding heard
heard-append [] t = refl
heard-append (played bytes ∷ s) t = ap (◌∷◌ bytes) (heard-append s t)
heard-append (prepare ∷ s) t = heard-append s t
heard-append (complaint text ∷ s) t = heard-append s t

-- The samples that are recorded, up to a failure of the device.
unfoldable pub recorded : List Recording → List (List ℕ)
recorded [] = []
recorded (read_error prepared ∷ inputs) = if is_neg prepared then [] else recorded inputs
recorded (samples bytes peers ∷ inputs) = bytes ∷ recorded inputs

-- A whole buffer was recorded.
abbrev pub IsFull : Recording → Type 0
IsFull (read_error prepared) = Unit {0}
IsFull (samples bytes peers) = length bytes ≡ audio_size

-- The datagrams, and what the writes to the sound device return.
abbrev pub arrive : (ℕ → ℤ) → ℕ → List (List ℕ) → List Playing
arrive written i [] = []
arrive written i (d ∷ ds) =
    record { received = got d; written = written i } ∷ arrive written (suc i) ds

sound_of_packet :
    (w : ℤ) (bytes : List ℕ)
    → heard (played bytes ∷ (if is_neg w then prepare ∷ [] else [])) ≡ bytes ∷ []
unfolding heard
sound_of_packet w bytes = ground arith

round-full :
    (s : Speaker) (p : AudioPacket) (w : ℤ)
    → IsWire p
    → length s.packet ≡ sizeof_packet
    → length (play_round s (record { received = got (to_image p); written = w })).packet
      ≡ sizeof_packet
unfolding play_round
round-full s p w wire full =
    rw (overlay_full sizeof_packet (to_image p) s.packet (length-to_image p wire) full)
      (length-to_image p wire)

heard-packets :
    (written : ℕ → ℤ) (i : ℕ) (ps : List AudioPacket) (s : Speaker)
    → All IsWire ps
    → length s.packet ≡ sizeof_packet
    → heard (play_audio s (arrive written i (map to_image ps))).sounds
      ≡ heard s.sounds ++ map (λ (p : AudioPacket). p.audio_data) ps
unfolding play_audio
heard-packets written i [] s h full = sym (append-nil (heard s.sounds))
heard-packets written i (p ∷ ps) s h full =
    let next : Speaker =
      play_round s (record { received = got (to_image p); written = written i }) in
    heard-packets written (suc i) ps next h.1 (round-full s p (written i) h.0 full)
    ∙ (ap (λ (l : List (List ℕ)). l ++ map (λ (q : AudioPacket). q.audio_data) ps)
          (ap heard (play_round-packet s p (written i) h.0 full).0
            ∙ (heard-append s.sounds _
                ∙ ap (◌++◌ (heard s.sounds)) (sound_of_packet (written i) p.audio_data)))
        ∙ append_assoc (heard s.sounds) (p.audio_data ∷ []) _)

data-packets :
    (packet : AudioPacket) (sequence : ℕ) (inputs : List Recording)
    → All IsFull inputs
    → length packet.audio_data ≡ audio_size
    → map (λ (p : AudioPacket). p.audio_data) (packets packet sequence inputs) ≡ recorded inputs
unfolding packets recorded
data-packets packet sequence [] h full = refl
data-packets packet sequence (read_error prepared ∷ inputs) h full =
    elim (Bool-cases (is_neg prepared)) [
      | inl dead ↦ rw dead
      | inr alive ↦ rw alive (data-packets packet sequence inputs h.1 full)
    ]
data-packets packet sequence (samples bytes peers ∷ inputs) h full =
    let whole : overlay audio_size bytes packet.audio_data ≡ bytes =
      overlay_full audio_size bytes packet.audio_data h.0 full in
    ap₂ ◌∷◌ whole (
      data-packets
        (record {
          a_sequence = sequence;
          timestamp = packet.timestamp;
          audio_data = overlay audio_size bytes packet.audio_data;
        })
        ((sequence + 1) % 2 ^ 32) inputs h.1 (ap length whole ∙ h.0))

-- What gets through is heard: if a recorder that is ready and has sent nothing to `a` yet records
-- whole buffers of 1024 frames while `a` is in the list of peers, or fails to record, then, whatever
-- `sendto` returns, whatever of the datagrams for `a` is lost, and whatever the writes to the sound
-- device return, `AudioPlayback` at `a`, which gets the others in order, gives to its sound device
-- exactly the recorded buffers of which the datagrams are not lost, in order. Recording ends where
-- the device cannot be prepared again.
pub recorded-heard :
    (sendto : Sendto) (a : SockaddrIn) (r : Recorder) (inputs : List Recording) (kept : List Bool)
    (written : ℕ → ℤ) (s : Speaker)
    → IsReady r
    → mail a r.events ≡ []
    → All (ListedOnce a) inputs
    → All IsFull inputs
    → length s.packet ≡ sizeof_packet
    → heard
        (play_audio s (
          arrive written 0 (survive kept (mail a (record_and_send sendto r inputs).events)))).sounds
      ≡ heard s.sounds ++ survive kept (recorded inputs)
recorded-heard sendto a r inputs kept written s ready nothing once whole full =
    let sent : List AudioPacket = packets r.packet r.sequence inputs in
    let fit : All IsWire sent =
      packets-IsWire r.packet r.sequence inputs ready.seq_fits ready.time_fits ready.data_full in
    rw
      (
        mail-record_and_send sendto a r inputs ready.is_running once,
        nothing,
        survive-map to_image kept sent,
        heard-packets written 0 (survive kept sent) s (All-survive IsWire kept sent fit) full,
        ← survive-map (λ (p : AudioPacket). p.audio_data) kept sent,
        data-packets r.packet r.sequence inputs whole ready.data_full,
      )
      refl

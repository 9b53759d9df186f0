-- ===== src/OnlineAv/Audio/Rounds.antt =====
-- The packets that `AudioRecAndSend` sends.
use eng_project.Base.{
  ℕ, ◌+◌, ◌%◌, ◌^◌, ◌<◌, ◌≡◌, refl, sym, ap, ◌∙◌, Bool, Bool-cases, inl, inr, true, false, List, [],
  ◌∷◌, ◌++◌, append-nil, append_assoc, map, ℤ, is_neg, if◌then◌else◌, length, take, drop, All,
  length-append, length-take, length-drop, arith,
}
use eng_project.OnlineAv.Net.{SockaddrIn, cerr, Sendto, mail, mail-append, mail-send_to_all, occurs}
use eng_project.OnlineAv.Fragment.{overlay}
use eng_project.OnlineAv.Audio.{
  AudioPacket, audio_size, to_image, Recording, read_error, samples, Recorder, record_round,
  record_and_send,
}
use eng_project.OnlineAv.Audio.Wire.{IsWire}

-- The address stands once in the list of peers whenever a packet is sent.
abbrev pub ListedOnce : SockaddrIn → Recording → Type 0
ListedOnce a (read_error prepared) = Unit {0}
ListedOnce a (samples bytes peers) = occurs a peers ≡ 1

length-overlay :
    (size : ℕ) (bytes old : List ℕ) → length old ≡ size → length (overlay size bytes old) ≡ size
unfolding overlay
length-overlay size bytes old h = omega (
  arith,
  length-append {0} (take size bytes) (drop (length (take size bytes)) old),
  length-take {0} size bytes,
  length-drop {0} (length (take size bytes)) old,
)

pub record IsReady (r : Recorder) : Type 0 where
  pub is_running : r.running ≡ true
  pub seq_fits : r.sequence < 2 ^ 32
  pub time_fits : r.packet.timestamp < 2 ^ 64
  pub data_full : length r.packet.audio_data ≡ audio_size

-- The packets of these rounds, up to a failure of the device.
unfoldable pub packets : AudioPacket → (sequence : ℕ) → List Recording → List AudioPacket
packets packet sequence [] = []
packets packet sequence (read_error prepared ∷ inputs) =
    if is_neg prepared then [] else packets packet sequence inputs
packets packet sequence (samples bytes peers ∷ inputs) =
    let now : AudioPacket = record {
      a_sequence = sequence;
      timestamp = packet.timestamp;
      audio_data = overlay audio_size bytes packet.audio_data;
    } in
    now ∷ packets now ((sequence + 1) % 2 ^ 32) inputs

-- They fit the wire.
pub packets-IsWire :
    (packet : AudioPacket) (sequence : ℕ) (inputs : List Recording)
    → sequence < 2 ^ 32
    → packet.timestamp < 2 ^ 64
    → length packet.audio_data ≡ audio_size
    → All IsWire (packets packet sequence inputs)
unfolding packets
packets-IsWire packet sequence [] s t full = tt
packets-IsWire packet sequence (read_error prepared ∷ inputs) s t full =
    elim (Bool-cases (is_neg prepared)) [
      | inl dead ↦ rw dead tt
      | inr alive ↦ rw alive (packets-IsWire packet sequence inputs s t full)
    ]
packets-IsWire packet sequence (samples bytes peers ∷ inputs) s t full =
    let full_again = length-overlay audio_size bytes packet.audio_data full in
    (
      record { seq_fits = s; time_fits = t; data_full = full_again },
      packets-IsWire
          (record {
            a_sequence = sequence;
            timestamp = packet.timestamp;
            audio_data = overlay audio_size bytes packet.audio_data;
          })
          ((sequence + 1) % 2 ^ 32) inputs (omega arith) t full_again,
    )

module _ (sendto : Sendto) (a : SockaddrIn) where
  stopped :
      (r : Recorder) (inputs : List Recording)
      → r.running ≡ false
      → record_and_send sendto r inputs ≡ r
  unfolding record_and_send
  stopped r [] e = refl
  stopped r (input ∷ inputs) e =
      ap
        (λ (b : Bool). elim b [
          | true ↦ record_and_send sendto (record_round sendto r input) inputs
          | false ↦ r
        ])
        e

  going :
      (r : Recorder) (input : Recording) (inputs : List Recording)
      → r.running ≡ true
      → record_and_send sendto r (input ∷ inputs)
        ≡ record_and_send sendto (record_round sendto r input) inputs
  unfolding record_and_send
  going r input inputs e =
      ap
        (λ (b : Bool). elim b [
          | true ↦ record_and_send sendto (record_round sendto r input) inputs
          | false ↦ r
        ])
        e

  round-dead :
      (r : Recorder) (prepared : ℤ)
      → is_neg prepared ≡ true
      → (record_round sendto r (read_error prepared)).running ≡ false
  unfolding record_round
  round-dead r prepared dead = rw dead

  error-mail :
      (r : Recorder) (prepared : ℤ)
      → mail a (record_round sendto r (read_error prepared)).events ≡ mail a r.events
  unfolding record_round mail
  error-mail r prepared = elim (Bool-cases (is_neg prepared)) [
    | inl dead ↦ rw dead (mail-append a r.events _ ∙ append-nil (mail a r.events))
    | inr alive ↦ rw alive (mail-append a r.events _ ∙ append-nil (mail a r.events))
  ]

  -- An address that is listed is sent these packets.
  pub mail-record_and_send :
      (r : Recorder) (inputs : List Recording)
      → r.running ≡ true
      → All (ListedOnce a) inputs
      → mail a (record_and_send sendto r inputs).events
        ≡ mail a r.events ++ map to_image (packets r.packet r.sequence inputs)
  unfolding packets record_and_send record_round mail
  mail-record_and_send r [] run once = sym (append-nil (mail a r.events))
  mail-record_and_send r (read_error prepared ∷ inputs) run once =
      ap (λ (q : Recorder). mail a q.events) (going r (read_error prepared) inputs run)
      ∙ (elim (Bool-cases (is_neg prepared)) [
        | inl dead ↦
            ap (λ (q : Recorder). mail a q.events) (stopped _ inputs (round-dead r prepared dead))
            ∙ (error-mail r prepared ∙ rw dead (sym (append-nil (mail a r.events))))
        | inr alive ↦ rw alive (
            mail-record_and_send (record r { events = r.events ++ cerr "Audio rec error" ∷ [] })
              inputs run once.1
            ∙ ap (λ (l : List (List ℕ)). l ++ map to_image (packets r.packet r.sequence inputs))
                (mail-append a r.events _ ∙ append-nil (mail a r.events)))
      ])
  mail-record_and_send r (samples bytes peers ∷ inputs) run once =
      ap (λ (q : Recorder). mail a q.events) (going r (samples bytes peers) inputs run)
      ∙ (mail-record_and_send (record_round sendto r (samples bytes peers)) inputs run once.1
          ∙ rw
              (
                mail-append a r.events _,
                mail-send_to_all sendto "Audio stream error. \n" _ a peers,
                once.0,
              )
              (append_assoc (mail a r.events) _ _))

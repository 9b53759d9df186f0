-- ===== src/OnlineAv/Audio/Sequence.antt =====
-- The sequence numbers that `AudioRecAndSend` gives to its packets.
use mathlib.Core.List.{map-append}
use eng_project.Base.{
  ℕ, zero, suc, ◌+◌, ◌%◌, ◌^◌, ◌≡◌, refl, ap, ap₂, ◌∙◌, Bool-cases, inl, inr, List, [], ◌∷◌, ◌++◌,
  map, is_neg, if◌then◌else◌, All,
}
use eng_project.OnlineAv.Net.{SockaddrIn, Event, Sendto, mail}
use eng_project.OnlineAv.Fragment.{overlay}
use eng_project.OnlineAv.Audio.{
  audio_size, AudioPacket, to_image, of_image, Recording, read_error, samples, Recorder,
  record_and_send,
}
use eng_project.OnlineAv.Audio.Wire.{IsWire, of_image-to_image}
use eng_project.OnlineAv.Audio.Rounds.{
  ListedOnce, IsReady, packets, packets-IsWire, mail-record_and_send,
}

-- The rounds that send a packet: those with samples, up to a failure of the device.
unfoldable pub captured : List Recording → ℕ
captured [] = 0
captured (read_error prepared ∷ inputs) = if is_neg prepared then 0 else captured inputs
captured (samples bytes peers ∷ inputs) = suc (captured inputs)

-- `k` sequence numbers from `n` on, modulo 2 ^ 32.
unfoldable pub numbers : ℕ → ℕ → List ℕ
numbers n zero = []
numbers n (suc k) = n ∷ numbers ((n + 1) % 2 ^ 32) k

-- The sequence number in a datagram.
abbrev number : List ℕ → ℕ
number d = (of_image d).a_sequence

-- The sequence numbers of the packets that were sent to an address.
abbrev pub sent_numbers : SockaddrIn → List Event → List ℕ
sent_numbers a es = map number (mail a es)

numbers_on_wire :
    (ps : List AudioPacket)
    → All IsWire ps
    → map number (map to_image ps) ≡ map (λ (p : AudioPacket). p.a_sequence) ps
numbers_on_wire [] h = refl
numbers_on_wire (p ∷ ps) h =
    ap₂ ◌∷◌ (ap (λ (q : AudioPacket). q.a_sequence) (of_image-to_image p h.0))
      (numbers_on_wire ps h.1)

numbers-packets :
    (packet : AudioPacket) (sequence : ℕ) (inputs : List Recording)
    → map (λ (p : AudioPacket). p.a_sequence) (packets packet sequence inputs)
      ≡ numbers sequence (captured inputs)
unfolding packets captured numbers
numbers-packets packet sequence [] = refl
numbers-packets packet sequence (read_error prepared ∷ inputs) =
    elim (Bool-cases (is_neg prepared)) [
      | inl dead ↦ rw dead
      | inr alive ↦ rw alive (numbers-packets packet sequence inputs)
    ]
numbers-packets packet sequence (samples bytes peers ∷ inputs) = ap (◌∷◌ sequence) (
    numbers-packets
      (record {
        a_sequence = sequence;
        timestamp = packet.timestamp;
        audio_data = overlay audio_size bytes packet.audio_data;
      })
      ((sequence + 1) % 2 ^ 32) inputs)

-- Packets are numbered without a gap: an address that is in the list of peers whenever a packet is
-- sent receives, from a recorder that is ready, the consecutive numbers from `sequence` on, modulo
-- 2 ^ 32, one for each round that had samples before the device failed.
pub sequence-in_order :
    (sendto : Sendto) (a : SockaddrIn) (r : Recorder) (inputs : List Recording)
    → IsReady r
    → All (ListedOnce a) inputs
    → sent_numbers a (record_and_send sendto r inputs).events
      ≡ sent_numbers a r.events ++ numbers r.sequence (captured inputs)
sequence-in_order sendto a r inputs ready once =
    let sent : List AudioPacket = packets r.packet r.sequence inputs in
    let fit : All IsWire sent =
      packets-IsWire r.packet r.sequence inputs ready.seq_fits ready.time_fits ready.data_full in
    ap (map number) (mail-record_and_send sendto a r inputs ready.is_running once)
    ∙ (map-append number (mail a r.events) (map to_image sent)
        ∙ ap (◌++◌ (sent_numbers a r.events))
            (numbers_on_wire sent fit ∙ numbers-packets r.packet r.sequence inputs))

-- ===== src/OnlineAv/Audio/Wire.antt =====
-- An audio packet on the wire, and what `AudioPlayback` makes of whole and of short datagrams.
use eng_project.Base.{
  ℕ, ◌+◌, ◌-◌, ◌^◌, ◌<◌, ◌≤◌, ◌≡◌, refl, sym, ap, ◌∙◌, List, [], ◌∷◌, ◌++◌, ℤ, if◌then◌else◌,
  is_neg, got, length, drop, take_of_length-le, drop-drop, drop-append_of_length, arith,
}
use eng_project.Base.Bytes.{le_bytes, of_le-le_bytes}
use eng_project.OnlineAv.Fragment.{overlay, overlay_full}
use eng_project.OnlineAv.Audio.{
  AudioPacket, sizeof_packet, audio_size, to_image, of_image, Speaker, played, prepare, play_round,
}

pub record IsWire (p : AudioPacket) : Type 0 where
  pub seq_fits : p.a_sequence < 2 ^ 32
  pub time_fits : p.timestamp < 2 ^ 64
  pub data_full : length p.audio_data ≡ audio_size

pub of_image-to_image : (p : AudioPacket) → IsWire p → of_image (to_image p) ≡ p
unfolding of_image to_image le_bytes
of_image-to_image p w = λ i. record {
  a_sequence = of_le-le_bytes 4 p.a_sequence w.seq_fits i;
  timestamp = of_le-le_bytes 8 p.timestamp w.time_fits i;
  audio_data = take_of_length-le audio_size p.audio_data (omega (arith, w.data_full)) i;
}

pub length-to_image : (p : AudioPacket) → IsWire p → length (to_image p) ≡ sizeof_packet
unfolding to_image le_bytes
length-to_image p w = omega (arith, w.data_full)

-- A whole audio packet is played as it was sent: whatever packet came before, the samples are those
-- of the sender, `snd_pcm_prepare` follows exactly when the write failed, and the sender's sequence
-- number is remembered. The packet's fields fit their types.
pub play_round-packet :
    (s : Speaker) (p : AudioPacket) (written : ℤ)
    → IsWire p
    → length s.packet ≡ sizeof_packet
    → ((play_round s (record { received = got (to_image p); written = written })).sounds
        ≡ s.sounds ++ played p.audio_data ∷ (if is_neg written then prepare ∷ [] else []))
      × ((play_round s (record { received = got (to_image p); written = written })).last_sequ
          ≡ p.a_sequence)
unfolding play_round
play_round-packet s p written w full =
    rw
      (
        overlay_full sizeof_packet (to_image p) s.packet (length-to_image p w) full,
        of_image-to_image p w,
      )
      (refl, refl)

drop-overlay :
    (n : ℕ) (bytes old : List ℕ)
    → length bytes ≤ n
    → n ≤ sizeof_packet
    → drop n (overlay sizeof_packet bytes old) ≡ drop n old
unfolding overlay
drop-overlay n bytes old short le =
    rw (take_of_length-le sizeof_packet bytes (omega arith)) (past n bytes short)
  where
    past :
        (n : ℕ) (bytes : List ℕ)
        → length bytes ≤ n
        → drop n (bytes ++ drop (length bytes) old) ≡ drop n old
    past n bytes h =
        ap (λ (k : ℕ). drop k (bytes ++ drop (length bytes) old)) (split n bytes h)
        ∙ (sym (
              drop-drop (length bytes) (n - length bytes) (length bytes + (n - length bytes)) _
                refl)
            ∙ (ap (drop (n - length bytes)) (drop-append_of_length (length bytes) bytes _ refl)
                ∙ drop-drop (length bytes) (n - length bytes) n old (sym (split n bytes h))))
      where
        split : (n : ℕ) (bytes : List ℕ) → length bytes ≤ n → n ≡ length bytes + (n - length bytes)
        split n bytes h = omega arith

-- A short datagram replays old sound: whatever the at most 16 bytes are (the greeting HELLO has 5,
-- and arrives on the same socket), the samples of the packet before are played once more.
play_round-short :
    (s : Speaker) (bytes : List ℕ) (written : ℤ)
    → length bytes ≤ 16
    → (play_round s (record { received = got bytes; written = written })).sounds
      ≡ s.sounds
        ++ played (of_image s.packet).audio_data ∷ (if is_neg written then prepare ∷ [] else [])
unfolding play_round of_image
play_round-short s bytes written short = rw (drop-overlay 16 bytes s.packet short (omega arith))

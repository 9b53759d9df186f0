-- ===== src/OnlineAv/Audio.antt =====
-- Online_AV/Online_AV.cpp, `struct Audio_Packet`, `AudioRecAndSend` and `AudioPlayback`. The samples
-- are kept as the bytes of `audio_data`. ALSA's calls are inputs: what they stored and returned.
pub mod Wire
pub mod Rounds
pub mod Sequence
pub mod Heard
use Prim.Native.String.{String}
use eng_project.Base.{
  ℕ, suc, ◌+◌, ◌%◌, ◌^◌, Bool, true, false, List, [], ◌∷◌, ◌++◌, ℤ, is_neg, if◌then◌else◌, Received,
  failed, got, length, take, drop, replicate,
}
use eng_project.Base.Bytes.{le_bytes, of_le}
use eng_project.OnlineAv.Net.{SockaddrIn, Event, cerr, Sendto, send_to_all}
use eng_project.OnlineAv.Fragment.{overlay}

-- `sizeof(packet.audio_data)`: Buff_Size * Channels samples of 2 bytes
abbrev pub audio_size : ℕ
audio_size = 4096

-- `sizeof(Audio_Packet)` on x86-64: 4, 4 of padding, 8, 4096.
abbrev pub sizeof_packet : ℕ
sizeof_packet = 4112

pub record AudioPacket : Type 0 where
  pub a_sequence : ℕ
  pub timestamp : ℕ
  pub audio_data : List ℕ

unfoldable pub to_image : AudioPacket → List ℕ
to_image packet =
    le_bytes 4 packet.a_sequence
    ++ (replicate 4 0 ++ (le_bytes 8 packet.timestamp ++ packet.audio_data))

unfoldable pub of_image : List ℕ → AudioPacket
of_image image = record {
  a_sequence = of_le (take 4 image);
  timestamp = of_le (take 8 (drop 8 image));
  audio_data = take audio_size (drop 16 image);
}

-- What a round of `AudioRecAndSend` meets: an error of `snd_pcm_readi` and what `snd_pcm_prepare`
-- then returns, or the samples that were stored and the peers when the lock is taken.
pub data Recording : Type 0 where
  read_error : ℤ → Recording
  samples : List ℕ → List SockaddrIn → Recording

pub record Recorder : Type 0 where
  pub running : Bool
  pub packet : AudioPacket
  pub sequence : ℕ
  pub events : List Event

-- `Audio_Packet packet = {}; uint32_t sequence = 0;`
unfoldable pub recorder : Recorder
recorder = record {
  running = true;
  packet = record { a_sequence = 0; timestamp = 0; audio_data = replicate audio_size 0 };
  sequence = 0;
  events = [];
}

-- One round of `while (running)` in `AudioRecAndSend`. `timestamp` is never written.
unfoldable pub record_round : Sendto → Recorder → Recording → Recorder
record_round sendto r (read_error prepared) =
    if is_neg prepared
    then record r {
      running = false;
      events = r.events ++ cerr "Audio rec error" ∷ cerr "Audio device error. \n" ∷ [];
    }
    else record r { events = r.events ++ cerr "Audio rec error" ∷ [] }
record_round sendto r (samples bytes peers) =
    let packet : AudioPacket = record {
      a_sequence = r.sequence;
      timestamp = r.packet.timestamp;
      audio_data = overlay audio_size bytes r.packet.audio_data;
    } in
    record {
      running = r.running;
      packet = packet;
      sequence = (r.sequence + 1) % 2 ^ 32;
      events = r.events ++ send_to_all sendto "Audio stream error. \n" (to_image packet) peers;
    }

-- `AudioRecAndSend`: it ends when a round has cleared `running`, or no round begins any more.
unfoldable pub record_and_send : Sendto → Recorder → List Recording → Recorder
record_and_send sendto r [] = r
record_and_send sendto r (input ∷ inputs) = elim r.running [
  | true ↦ record_and_send sendto (record_round sendto r input) inputs
  | false ↦ r
]

-- What a round of `AudioPlayback` meets: what `recv` did, and what `snd_pcm_writei` returns.
pub record Playing : Type 0 where
  pub received : Received
  pub written : ℤ

pub data Sound : Type 0 where
  played : List ℕ → Sound
  prepare : Sound
  complaint : String → Sound

pub record Speaker : Type 0 where
  pub packet : List ℕ
  pub last_sequ : ℕ
  pub sounds : List Sound

-- `Audio_Packet packet = {}; uint32_t last_sequ = 0;`
unfoldable pub speaker : Speaker
speaker = record { packet = replicate sizeof_packet 0; last_sequ = 0; sounds = [] }

-- One round of `while (runnning)` in `AudioPlayback`. The packet is not cleared before `recv`.
unfoldable pub play_round : Speaker → Playing → Speaker
play_round s input = elim input.received [
  | failed ↦ record s { sounds = s.sounds ++ complaint "Error receiving audio. \n" ∷ [] }
  | got bytes ↦
      let image = overlay sizeof_packet bytes s.packet in
      let packet = of_image image in
      record {
        packet = image;
        last_sequ = packet.a_sequence;
        sounds =
            s.sounds
            ++ played packet.audio_data ∷ (if is_neg input.written then prepare ∷ [] else []);
      }
]

-- `AudioPlayback`: the rounds that begin while `running` is set.
unfoldable pub play_audio : Speaker → List Playing → Speaker
play_audio s [] = s
play_audio s (input ∷ inputs) = play_audio (play_round s input) inputs

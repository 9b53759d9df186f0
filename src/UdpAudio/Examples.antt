-- ===== src/UdpAudio/Examples.antt =====
-- A run of UDPaudio, and its theorem at a concrete input.
use eng_project.Base.{◌≡◌, refl, true, false, Option, some, ℤ, [], ◌∷◌, map, pos, replicate}
use eng_project.Base.Loop.{run}
use eng_project.UdpAudio.Stream.{
  SendRound, ReceiveRound, packet_data, to_string, send_round, audio_sender, audio_receiver,
}
use eng_project.UdpAudio.Main.{
  Text, sockets, cerr, free_record, returned, World, stream, connect, with_arguments,
}
use eng_project.UdpAudio.Stream.Header.{sends, writes, heard, time-heard}

to_string_test : to_string 1700 ≡ b'1' ∷ b'7' ∷ b'0' ∷ b'0' ∷ []
unfolding to_string
to_string_test = refl

abbrev block : SendRound
block = record { read = pos 0; buffer = replicate 4096 7; timestamp = 1700; throws = false }

abbrev arrival : ReceiveRound
arrival = record { datagram = packet_data 1700 (replicate 4096 7); throws = false; written = pos 0 }

sent_block : (packet_data 1700 (replicate 4096 7)) ∷ [] ≡ sends (audio_sender (block ∷ []))
unfolding audio_sender send_round sends run
sent_block = refl

time-heard_example : writes (audio_receiver (arrival ∷ [])) ≡ map heard (block ∷ [])
time-heard_example =
    time-heard (block ∷ []) (arrival ∷ []) ((refl, refl), tt) ((refl, refl), tt) sent_block

-- A port that does not fit 16 bits is cut off, and without PulseAudio nothing is streamed.
abbrev port_only : Text → Option ℤ
port_only text = some (pos 70000)

abbrev silent : World
silent = record {
  sockets_open = true;
  record_opens = true;
  play_opens = false;
  send_rounds = [];
  receive_rounds = [];
}

cut_off :
    with_arguments port_only ((1 ∷ []) ∷ (2 ∷ []) ∷ (3 ∷ []) ∷ (4 ∷ []) ∷ []) silent
    ≡ returned 1 (
        sockets 4464 (3 ∷ []) 4464
        ∷ cerr "PulseAudio playback connection error: "
        ∷ free_record
        ∷ [])
unfolding with_arguments connect stream
cut_off = refl

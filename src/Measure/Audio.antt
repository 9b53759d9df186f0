-- ===== src/Measure/Audio.antt =====
-- TCPMeasure/Audio/TCPLBCl.cpp: the client that sends captured sound with the time before it, and
-- plays what it is sent. The figures that it prints (latency, bandwidth) are left out.
pub mod Stream
use Prim.Native.String.{String}
use eng_project.Base.{
  ℕ, ◌*◌, ◌/◌, Bool, true, false, List, [], ◌∷◌, ◌++◌, ℤ, is_pos, is_zero, is_neg, is_minus_one,
  if◌then◌else◌, Received, count, payload, take,
}
use eng_project.Base.Bytes.{le_bytes}
use eng_project.Base.Loop.{Turn, next, break, run}
use eng_project.OnlineAv.Fragment.{overlay}
use eng_project.Client.Capture.{Reading, frames_read, recovered, broken}
use eng_project.Client.Connect.{Attempt}
use eng_project.Client.Playback.{whole_frames}
use eng_project.Measure.Connect.{Run, with_server}

-- BUFFSIZE, in bytes
abbrev pub buffsize : ℕ
buffsize = 4096

-- `take_ack` is what `recv(sockfd, ack, sizeof(ack), 0)` takes off the socket.
pub data Event : Type 0 where
  send : List ℕ → Event
  take_ack : List ℕ → Event
  play : List ℕ → Event
  recover : Event
  close_device : Event
  perror : String → Event
  cerr : String → Event
  cout : String → Event

-- What a round of `send_audio_with_metrics` meets: the reading, the clock, what `send` returns, and
-- what the `recv` of the acknowledgment does.
pub record Round : Type 0 where
  pub reading : Reading
  pub ms_timestamp : ℕ
  pub sent : ℤ
  pub ack : Received

-- The part of a round after the reading. The state is the buffer.
unfoldable pub send_packet : List ℕ → Round → (frames : ℕ) → Turn (List ℕ) Event
send_packet buffer r frames =
    let packet = le_bytes 8 r.ms_timestamp ++ take (frames * 2 * 2) buffer in
    if is_minus_one r.sent
    then break buffer (send packet ∷ perror "Send failed" ∷ [])
    else next buffer (send packet ∷ take_ack (take 8 (payload r.ack)) ∷ [])

unfoldable pub handle_reading : List ℕ → Round → Reading → Turn (List ℕ) Event
handle_reading buffer r (frames_read frames bytes) =
    send_packet (overlay buffsize bytes buffer) r frames
handle_reading buffer r (recovered frames) = send_packet buffer r frames
handle_reading buffer r broken = break buffer (cerr "Audio capture error: " ∷ [])

-- One round of `while (!stop_streaming)`. Nothing ever sets this flag.
unfoldable pub send_round : List ℕ → Round → Turn (List ℕ) Event
send_round buffer r = handle_reading buffer r r.reading

unfoldable pub send_audio_with_metrics : (opened : Bool) → List ℕ → List Round → List Event
send_audio_with_metrics false buffer rounds = cerr "Capture open error: " ∷ []
send_audio_with_metrics true buffer rounds =
    (run send_round buffer rounds).events ++ close_device ∷ []

-- What a round of `receive_and_play_audio` meets: what `recv` does, and what `snd_pcm_writei`
-- returns.
pub record PlayRound : Type 0 where
  pub received : Received
  pub written : ℤ

-- A loop without state of its own.
unfoldable pub play_round : Unit {0} → PlayRound → Turn (Unit {0}) Event
play_round s r =
    let sound = play (whole_frames (payload r.received)) in
    if is_pos (count r.received)
    then next s (sound ∷ (if is_neg r.written then recover ∷ [] else []))
    else break s (
        (if is_zero (count r.received)
          then cout "Server closed connection.\n"
          else perror "Receive error")
        ∷ [])

unfoldable pub receive_and_play_audio : (opened : Bool) → List PlayRound → List Event
receive_and_play_audio false rounds = cerr "Playback open error: " ∷ []
receive_and_play_audio true rounds = (run play_round tt rounds).events ++ close_device ∷ []

-- What the two threads meet.
pub record Streams : Type 0 where
  pub capture_opens : Bool
  pub buffer : List ℕ
  pub send_rounds : List Round
  pub playback_opens : Bool
  pub play_rounds : List PlayRound

-- `main`. The threads run side by side; their events are listed one thread after the other.
unfoldable pub main : (ℕ → Attempt) → Streams → Run Event
unfolding with_server send_audio_with_metrics receive_and_play_audio
main attempt s = with_server attempt (
    send_audio_with_metrics s.capture_opens s.buffer s.send_rounds
    ++ receive_and_play_audio s.playback_opens s.play_rounds)

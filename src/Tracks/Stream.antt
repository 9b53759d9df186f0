-- ===== src/Tracks/Stream.antt =====
-- Online_Tracks/UDPconn1.cpp, `audio_cap` and `play_audio`. ALSA's calls and the results of the
-- sockets are inputs.
pub mod Traffic
use Prim.Native.String.{String}
use eng_project.Base.{
  ℕ, ◌*◌, ◌/◌, Bool, true, false, List, [], ◌∷◌, ◌++◌, ℤ, is_pos, is_zero, is_neg, is_minus_one,
  if◌then◌else◌, Received, count, payload, take,
}
use eng_project.Base.Loop.{Turn, next, break, run}
use eng_project.OnlineAv.Net.{SockaddrIn}
use eng_project.OnlineAv.Fragment.{overlay}
use eng_project.Client.Capture.{buffer_size, Reading, frames_read, recovered, broken}
use eng_project.Client.Playback.{is_epipe, whole_frames}

pub data Event : Type 0 where
  datagram : SockaddrIn → List ℕ → Event
  play : List ℕ → Event
  close_device : Event
  close : ℤ → Event
  perror : String → Event
  cerr : String → Event
  cout : String → Event

-- What a round of `audio_cap` meets: the reading, and what `sendto` returns.
pub record CaptureRound : Type 0 where
  pub reading : Reading
  pub sent : ℤ

-- The flag as a thread leaves it, and its buffer.
pub record Streaming : Type 0 where
  pub stop_streaming : Bool
  pub buffer : List ℕ

abbrev pub stopped : Streaming → Streaming
stopped s = record s { stop_streaming = true }

-- The part of a round after the reading.
unfoldable pub forward : SockaddrIn → ℤ → Streaming → (fr_capture : ℕ) → Turn Streaming Event
forward remote_addr sent s fr_capture =
    let packet = datagram remote_addr (take (fr_capture * 2 * 2) s.buffer) in
    if is_minus_one sent
    then break (stopped s) (packet ∷ perror "error sending" ∷ [])
    else next s (packet ∷ [])

unfoldable pub handle_reading : SockaddrIn → Streaming → ℤ → Reading → Turn Streaming Event
handle_reading remote_addr s sent (frames_read fr_capture bytes) =
    forward remote_addr sent (record s { buffer = overlay buffer_size bytes s.buffer }) fr_capture
handle_reading remote_addr s sent (recovered fr_capture) = forward remote_addr sent s fr_capture
handle_reading remote_addr s sent broken = break s (cerr "Audio capture error" ∷ [])

-- One round of `while(!stop_streaming)`.
unfoldable pub capture_round : SockaddrIn → Streaming → CaptureRound → Turn Streaming Event
capture_round remote_addr s r = handle_reading remote_addr s r.sent r.reading

abbrev pub from : List ℕ → Streaming
from buffer = record { stop_streaming = false; buffer = buffer }

-- What a thread has done when it returns, and whether it has set the flag.
pub record Thread : Type 0 where
  pub stop_streaming : Bool
  pub events : List Event

-- `audio_cap`. `buffer` is what the uninitialised array holds, `local_sockfd_capture` the variable
-- of `main` that nothing has been assigned to.
unfoldable pub audio_cap :
    (opened : Bool) → SockaddrIn → (local_sockfd_capture : ℤ) → List ℕ → List CaptureRound → Thread
audio_cap false remote_addr local_sockfd_capture buffer rounds = record {
  stop_streaming = false;
  events = cerr "capture device error" ∷ [];
}
audio_cap true remote_addr local_sockfd_capture buffer rounds =
    let looped = run (capture_round remote_addr) (from buffer) rounds in
    record {
      stop_streaming = looped.state.stop_streaming;
      events = looped.events ++ close_device ∷ close local_sockfd_capture ∷ [];
    }

-- What a round of `play_audio` meets: what `recvfrom` did, and the results of `snd_pcm_writei` and
-- `snd_pcm_prepare`.
pub record PlayRound : Type 0 where
  pub received : Received
  pub written : ℤ
  pub prepared : ℤ

-- One round of `while(!stop_streaming)`; the state is the flag as this thread leaves it.
unfoldable pub play_round : Bool → PlayRound → Turn Bool Event
play_round stop r =
    let sound = play (whole_frames (payload r.received)) in
    if is_pos (count r.received)
    then (if is_neg r.written
        then (if is_epipe r.written
            then (if is_neg r.prepared
                then break true (
                    sound
                    ∷ cerr "Buffer underrun occurred: "
                    ∷ cerr "Error recovering from underrum"
                    ∷ [])
                else next stop (sound ∷ cerr "Buffer underrun occurred: " ∷ []))
            else break true (sound ∷ cerr "write to audio interface failed: " ∷ []))
        else next stop (sound ∷ []))
    else break true (
        (if is_zero (count r.received)
          then cout "Server closed connection. \n"
          else perror "recv error")
        ∷ [])

-- `play_audio`
unfoldable pub play_audio : (opened : Bool) → (local_sockfd_playback : ℤ) → List PlayRound → Thread
play_audio false local_sockfd_playback rounds = record {
  stop_streaming = false;
  events = cerr "playback device error" ∷ [];
}
play_audio true local_sockfd_playback rounds =
    let looped = run play_round false rounds in
    record {
      stop_streaming = looped.state;
      events = looped.events ++ close_device ∷ close local_sockfd_playback ∷ [];
    }

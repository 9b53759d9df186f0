-- ===== src/Client/Capture.antt =====
-- TCPS/Client/TCPSC.cpp, `audio_cap`: captured sound goes to the server, and with a timestamp to the
-- visualizer. ALSA's calls, the clock and the results of `send` are inputs.
pub mod Mirror
pub mod Sound
use eng_project.Base.{
  ℕ, ◌+◌, ◌*◌, Bool, true, false, List, [], ◌∷◌, ◌++◌, ℤ, is_minus_one, if◌then◌else◌, take,
}
use eng_project.Base.Bytes.{le_bytes}
use eng_project.OnlineAv.Fragment.{overlay}
use eng_project.Client.Event.{Event, send, close, close_device, perror, cerr}

-- `sizeof(buffer)`: BUFFSIZE frames of 2 samples of 2 bytes
abbrev pub buffer_size : ℕ
buffer_size = 4096

-- What `snd_pcm_readi` did: it stored so many frames, or failed and `snd_pcm_recover` returned a
-- number of frames, or that failed too.
pub data Reading : Type 0 where
  frames_read : (fr_capture : ℕ) → List ℕ → Reading
  recovered : (fr_capture : ℕ) → Reading
  broken : Reading

-- What a round meets: the reading, the clock in milliseconds, and what the two `send` return.
pub record Round : Type 0 where
  pub reading : Reading
  pub now : ℕ
  pub sent : ℤ
  pub shown : ℤ

-- Where a thread stands after some rounds: still in its loop, or out of it by a `break`; the flag
-- `stop_streaming`; the buffer; what it has done.
pub record Capturing : Type 0 where
  pub out : Bool
  pub stop_streaming : Bool
  pub buffer : List ℕ
  pub events : List Event

-- The part of a round after the reading: `byte_send = fr_capture * 2 * Channels`, two `send`s.
unfoldable pub forward : (sockfd local_sockfd : ℤ) → Round → List ℕ → ℕ → Capturing
forward sockfd local_sockfd r buffer fr_capture =
    let chunk = take (fr_capture * 2 * 2) buffer in
    if is_minus_one r.sent
    then record {
      out = true;
      stop_streaming = true;
      buffer = buffer;
      events = send sockfd chunk ∷ perror "error sending" ∷ [];
    }
    else (if is_minus_one r.shown
        then record {
          out = true;
          stop_streaming = true;
          buffer = buffer;
          events =
              send sockfd chunk
              ∷ send local_sockfd (le_bytes 8 r.now ++ chunk)
              ∷ perror "Error sending data to Python (timestamp + audio)"
              ∷ [];
        }
        else record {
          out = false;
          stop_streaming = false;
          buffer = buffer;
          events = send sockfd chunk ∷ send local_sockfd (le_bytes 8 r.now ++ chunk) ∷ [];
        })

unfoldable pub handle_reading : (sockfd local_sockfd : ℤ) → Round → List ℕ → Reading → Capturing
handle_reading sockfd local_sockfd r buffer (frames_read fr_capture bytes) =
    forward sockfd local_sockfd r (overlay buffer_size bytes buffer) fr_capture
handle_reading sockfd local_sockfd r buffer (recovered fr_capture) =
    forward sockfd local_sockfd r buffer fr_capture
handle_reading sockfd local_sockfd r buffer broken = record {
  out = true;
  stop_streaming = false;
  buffer = buffer;
  events = cerr "Audio capture error" ∷ [];
}

-- One round of `while (!stop_streaming)`.
unfoldable pub capture_round : (sockfd local_sockfd : ℤ) → Round → List ℕ → Capturing
capture_round sockfd local_sockfd r buffer = handle_reading sockfd local_sockfd r buffer r.reading

-- The loop, over the rounds that begin while `stop_streaming` is not set.
unfoldable pub capture_loop : (sockfd local_sockfd : ℤ) → List Round → List ℕ → Capturing
capture_loop sockfd local_sockfd [] buffer = record {
  out = false;
  stop_streaming = false;
  buffer = buffer;
  events = [];
}
capture_loop sockfd local_sockfd (r ∷ rs) buffer =
    let now = capture_round sockfd local_sockfd r buffer in
    let rest = capture_loop sockfd local_sockfd rs now.buffer in
    let all : Capturing = record {
      out = rest.out;
      stop_streaming = rest.stop_streaming;
      buffer = rest.buffer;
      events = now.events ++ rest.events;
    } in
    if now.out then now else all

pub record Thread : Type 0 where
  pub stop_streaming : Bool
  pub events : List Event

-- `audio_cap`: without a device it returns at once; else it closes the device and both sockets
-- after the loop. `buffer` is what the uninitialised array holds.
unfoldable pub audio_cap :
    (opened : Bool) → (sockfd local_sockfd : ℤ) → List ℕ → List Round → Thread
audio_cap false sockfd local_sockfd buffer rounds = record {
  stop_streaming = false;
  events = cerr "capture device error" ∷ [];
}
audio_cap true sockfd local_sockfd buffer rounds =
    let looped = capture_loop sockfd local_sockfd rounds buffer in
    record {
      stop_streaming = looped.stop_streaming;
      events = looped.events ++ close_device ∷ close sockfd ∷ close local_sockfd ∷ [];
    }

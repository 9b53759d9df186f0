-- ===== src/Attempt/Client.antt =====
-- TCPattempt/TCP_client/TCPclient2.cpp. `play_audio` has the text of the function of that name in
-- TCPS/Client/TCPSC.cpp, and is that model. ALSA's calls and the results of the sockets are inputs.
pub mod Connecting
pub mod Closing
use eng_project.Base.{
  ℕ, ◌*◌, Bool, true, false, List, [], ◌∷◌, ◌++◌, ℤ, pos, negsuc, is_minus_one, if◌then◌else◌,
  Option, none, some, take,
}
use eng_project.Base.Loop.{Turn, next, break, run}
use eng_project.OnlineAv.Fragment.{overlay}
use eng_project.Client.Event.{Event, send, close, close_device, perror, cerr, cout}
use eng_project.Client.Connect.{Connection, after_events, Made, none_made, made}
use eng_project.Client.Capture.{buffer_size, Reading, frames_read, recovered, broken}
use eng_project.Client.Playback
use eng_project.Client.Main.{Exit}

-- What `socket` and `connect` do with one address of `servinfo`.
pub data Address : Type 0 where
  no_socket : Address
  refused : (sockfd : ℕ) → Address
  connected : (sockfd : ℕ) → Address

-- `for (p = servinfo; p != NULL; p = p->ai_next)`, and the test `p == NULL` after it.
unfoldable pub try_addresses : List Address → Connection
try_addresses [] = record { result = negsuc 0; events = cerr "failed to connect client\n" ∷ [] }
try_addresses (no_socket ∷ p) = after_events (perror "client socket error" ∷ []) (try_addresses p)
try_addresses (refused sockfd ∷ p) =
    after_events (close (pos sockfd) ∷ perror "connection error" ∷ []) (try_addresses p)
try_addresses (connected sockfd ∷ p) = record { result = pos sockfd; events = [] }

-- `connect_server`; `none` if `getaddrinfo` fails.
unfoldable pub connect_server : Option (List Address) → Connection
unfolding try_addresses
connect_server none = record { result = negsuc 0; events = cerr "getaddrinfo: " ∷ [] }
connect_server (some servinfo) = try_addresses servinfo

-- What a round of `audio_cap` meets: the reading, what the two `send` return, and whether `errno`
-- is EPIPE after the second.
pub record Round : Type 0 where
  pub reading : Reading
  pub sent : ℤ
  pub shown : ℤ
  pub broken_pipe : Bool

pub record Streaming : Type 0 where
  pub stop_streaming : Bool
  pub buffer : List ℕ

abbrev pub stopped : Streaming → Streaming
stopped s = record s { stop_streaming = true }

-- The part of a round after the reading.
unfoldable pub forward :
    (sockfd local_sockfd_capture : ℤ) → Round → Streaming → (fr_capture : ℕ) → Turn Streaming Event
forward sockfd local_sockfd_capture r s fr_capture =
    let chunk = take (fr_capture * 2 * 2) s.buffer in
    if is_minus_one r.sent
    then break (stopped s) (send sockfd chunk ∷ perror "error sending" ∷ [])
    else (if is_minus_one r.shown
        then break (stopped s) (
            send sockfd chunk
            ∷ send local_sockfd_capture chunk
            ∷ (if r.broken_pipe
                then cerr "Visualizer disconnected - Broken pipe.\n"
                else perror "Error sending data to Python")
            ∷ [])
        else next s (send sockfd chunk ∷ send local_sockfd_capture chunk ∷ []))

unfoldable pub handle_reading :
    (sockfd local_sockfd_capture : ℤ) → Streaming → Round → Reading → Turn Streaming Event
handle_reading sockfd local_sockfd_capture s r (frames_read fr_capture bytes) =
    forward sockfd local_sockfd_capture r (record s { buffer = overlay buffer_size bytes s.buffer })
      fr_capture
handle_reading sockfd local_sockfd_capture s r (recovered fr_capture) =
    forward sockfd local_sockfd_capture r s fr_capture
handle_reading sockfd local_sockfd_capture s r broken = break s (cerr "Audio capture error" ∷ [])

-- One round of `while(!stop_streaming)`.
unfoldable pub capture_round :
    (sockfd local_sockfd_capture : ℤ) → Streaming → Round → Turn Streaming Event
capture_round sockfd local_sockfd_capture s r =
    handle_reading sockfd local_sockfd_capture s r r.reading

-- `audio_cap`; `buffer` is what the uninitialised array holds.
unfoldable pub audio_cap :
    (opened : Bool) → (sockfd local_sockfd_capture : ℤ) → List ℕ → List Round → List Event
audio_cap false sockfd local_sockfd_capture buffer rounds = cerr "capture device error" ∷ []
audio_cap true sockfd local_sockfd_capture buffer rounds =
    (run (capture_round sockfd local_sockfd_capture)
      (record { stop_streaming = false; buffer = buffer }) rounds).events
    ++ close_device ∷ close local_sockfd_capture ∷ []

unfoldable pub play_audio :
    (opened : Bool) → (local_sockfd_playback : ℤ) → List Playback.Round → List Event
play_audio opened local_sockfd_playback rounds =
    (Playback.play_audio opened local_sockfd_playback rounds).events

-- What the threads meet.
pub record Streams : Type 0 where
  pub capture_opened : Bool
  pub buffer : List ℕ
  pub capture_rounds : List Round
  pub playback_opened : Bool
  pub playback_rounds : List Playback.Round

-- From the start of the threads to the end of `main`. The threads run side by side; their events
-- are listed one thread after the other.
unfoldable pub stream : (sockfd capture playback : ℤ) → Streams → List Event
stream sockfd capture playback s =
    audio_cap s.capture_opened sockfd capture s.buffer s.capture_rounds
    ++ (play_audio s.playback_opened playback s.playback_rounds
        ++ close sockfd ∷ cout "Connection closed.\n" ∷ [])

-- A socket for the visualizer, and whether `connect` succeeds on it.
pub record View : Type 0 where
  pub socket : Made
  pub connects : Bool

pub record World : Type 0 where
  pub servinfo : Option (List Address)
  pub capture : View
  pub playback : View
  pub streams : Streams

-- The two parts of `main` that make a connection to the visualizer, and then do the rest.
unfoldable pub with_view : Made → Bool → (failed done : Event) → (ℤ → Exit) → Exit
with_view none_made connects failed done rest = record {
  code = 1;
  events = perror "Local socket error" ∷ [];
}
with_view (made fd) connects failed done rest =
    let exit = rest (pos fd) in
    if connects
    then record exit { events = done ∷ exit.events }
    else record { code = 1; events = failed ∷ [] }

unfoldable pub main : World → Exit
unfolding with_view stream connect_server
main w =
    let server = connect_server w.servinfo in
    let go_on =
      with_view w.capture.socket w.capture.connects (perror "Python connection error (capt)")
        (cout "Python View connection successful.\n")
        λ capture.
          with_view w.playback.socket w.playback.connects (perror "Python connection error (play)")
            (cout "Python playback view successful.\n")
            λ playback. record {
              code = 0;
              events = stream server.result capture playback w.streams;
            } in
    if is_minus_one server.result
    then record { code = 1; events = server.events ++ cerr "Server connection error.\n" ∷ [] }
    else record { code = go_on.code; events = server.events ++ go_on.events }

-- ===== src/Client/Main.antt =====
-- TCPS/Client/TCPSC.cpp, `main`: connect, start both threads, wait for them, close the sockets.
-- The two threads run side by side; their events are listed one thread after the other, and the
-- rounds of each are those that begin before it sees `stop_streaming`.
pub mod Closing
pub mod Waiting
use eng_project.Base.{
  ℕ, Bool, true, false, List, [], ◌∷◌, ◌++◌, ℤ, pos, is_minus_one, if◌then◌else◌,
}
use eng_project.Client.Event.{Event, close, cerr, cout}
use eng_project.Client.Connect.{Attempt, Made, Texts, Connection, connect_server, connect_view}
use eng_project.Client.Capture
use eng_project.Client.Playback
use eng_project.Client.Capture.{audio_cap}
use eng_project.Client.Playback.{play_audio}

-- What the threads meet.
pub record Streams : Type 0 where
  pub capture_opened : Bool
  pub buffer : List ℕ
  pub capture_rounds : List Capture.Round
  pub playback_opened : Bool
  pub playback_rounds : List Playback.Round

abbrev pub close_unless_none : ℤ → List Event
close_unless_none fd = if is_minus_one fd then [] else close fd ∷ []

-- From the start of the threads to the end of `main`.
unfoldable pub stream : (sockfd local_sockfd_cap local_sockfd_playback : ℤ) → Streams → List Event
stream sockfd local_sockfd_cap local_sockfd_playback s =
    cout "Press Ctrl+C to stop streaming..."
      ∷ (audio_cap s.capture_opened sockfd local_sockfd_cap s.buffer s.capture_rounds).events
    ++ ((play_audio s.playback_opened local_sockfd_playback s.playback_rounds).events
        ++ (close sockfd
            ∷ (close_unless_none local_sockfd_cap
                ++ (close_unless_none local_sockfd_playback ++ cout "Connection closed.\n" ∷ []))))

abbrev pub max_retries : ℕ
max_retries = 5

abbrev pub delay_second : ℕ
delay_second = 2

-- What `main` prints for the visualizer of the captured sound, and for that of the played sound.
abbrev pub capture_view : Texts
capture_view = record {
  no_socket = "Python socket error";
  successful = "Python View connection successful.\n";
  error = "Python connection error";
  failed = "Failed to connect to Python.\n";
}

abbrev pub playback_view : Texts
playback_view = record {
  no_socket = "Local socket error (playback)";
  successful = "Python playback view successful (playback).\n";
  error = "Python connection error (playback)";
  failed = "Failed to connect to Python playback view after retries.\n";
}

-- What `main` meets: the rounds of `connect_server`, and for each view its socket and the results
-- of `connect`.
pub record World : Type 0 where
  pub attempt : ℕ → Attempt
  pub capture_socket : Made
  pub capture_connects : ℕ → Bool
  pub playback_socket : Made
  pub playback_connects : ℕ → Bool
  pub streams : Streams

pub record Exit : Type 0 where
  pub code : ℕ
  pub events : List Event

unfoldable pub main : World → Exit
main w =
    let server = connect_server w.attempt delay_second max_retries in
    let capture =
      connect_view capture_view w.capture_socket w.capture_connects delay_second max_retries in
    let playback =
      connect_view playback_view w.playback_socket w.playback_connects delay_second max_retries in
    if is_minus_one server.result
    then record { code = 1; events = server.events ++ cerr "Server connect error.\n" ∷ [] }
    else record {
      code = 0;
      events =
          server.events
          ++ (capture.events
              ++ (playback.events
                  ++ stream server.result capture.result playback.result w.streams));
    }

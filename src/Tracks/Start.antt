-- ===== src/Tracks/Start.antt =====
-- Online_Tracks/UDPconn1.cpp, `main`: the constants of the program, what can fail before sound is
-- sent, and the sockets that are closed in the end.
pub mod Closing
use Prim.Native.String.{String}
use eng_project.Base.{ℤ, ◌++◌, ℕ, Bool, List, [], ◌∷◌, pos, Option, none, some}
use eng_project.OnlineAv.Net.{SockaddrIn}
use eng_project.Tracks.Stream.{Event, perror, close, CaptureRound, PlayRound, audio_cap, play_audio}

-- PORT1, PORT2, CLIENT1_IP, CLIENT2_IP
pub record Config : Type 0 where
  pub port1 : ℕ
  pub port2 : ℕ
  pub client1_ip : String
  pub client2_ip : String

abbrev pub conn1 : Config
conn1 = record {
  port1 = 12345;
  port2 = 54321;
  client1_ip = "192.168.1.83";
  client2_ip = "192.168.1.85";
}

-- What `socket` and `bind` do.
pub data Binding : Type 0 where
  no_socket : Binding
  not_bound : (sockfd : ℕ) → Binding
  bound : (sockfd : ℕ) → Binding

-- `main` ends with an exit code, or has its socket and `remote_addr`.
pub data Started : Type 0 where
  ended : (code : ℕ) → List Event → Started
  ready : (sockfd : ℕ) → SockaddrIn → Started

-- `inet_pton(AF_INET, CLIENT2_IP, …)` and what follows it; `none` where it returns 0 or less.
unfoldable pub set_remote : Config → (sockfd : ℕ) → Option ℕ → Started
set_remote c sockfd none = ended 1 (perror "Invalid IP address" ∷ close (pos sockfd) ∷ [])
set_remote c sockfd (some ip) = ready sockfd (record { s_addr = ip; sin_port = c.port2 })

-- `main` before the threads; `inet_pton` is the library's. Ports are kept in host order.
unfoldable pub start : Config → (String → Option ℕ) → Binding → Started
unfolding set_remote
start c inet_pton no_socket = ended 1 (perror "Socket setup error" ∷ [])
start c inet_pton (not_bound sockfd) = ended 1 (perror "Binding error" ∷ close (pos sockfd) ∷ [])
start c inet_pton (bound sockfd) = set_remote c sockfd (inet_pton c.client2_ip)

unfoldable pub start1 : (String → Option ℕ) → Binding → Started
unfolding start
start1 = start conn1

-- What the threads meet, and what the two variables hold that nothing is assigned to.
pub record Streams : Type 0 where
  pub local_sockfd_capture : ℤ
  pub local_sockfd_playback : ℤ
  pub capture_opened : Bool
  pub buffer : List ℕ
  pub capture_rounds : List CaptureRound
  pub playback_opened : Bool
  pub playback_rounds : List PlayRound

-- From the start of the threads to the end of `main`, if the wait ends (see Waiting). The threads
-- run side by side; their events are listed one thread after the other.
unfoldable pub stream : (sockfd : ℕ) → SockaddrIn → Streams → List Event
stream sockfd remote_addr s =
    (audio_cap s.capture_opened remote_addr s.local_sockfd_capture s.buffer s.capture_rounds).events
    ++ ((play_audio s.playback_opened s.local_sockfd_playback s.playback_rounds).events
        ++ close (pos sockfd) ∷ [])

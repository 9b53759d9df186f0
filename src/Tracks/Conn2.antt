-- ===== src/Tracks/Conn2.antt =====
-- Online_Tracks/UDPconn2.cpp: its constants are those of UDPconn1.cpp exchanged; its functions have
-- the text of the functions there, and are those models.
use Prim.Native.String.{String}
use eng_project.Base.{ℕ, Bool, List, ℤ, Option}
use eng_project.OnlineAv.Net.{SockaddrIn}
use eng_project.Tracks.Stream
use eng_project.Tracks.Start
use eng_project.Tracks.Start.{Config}

abbrev pub conn2 : Config
conn2 = record {
  port1 = 54321;
  port2 = 12345;
  client1_ip = "192.168.1.85";
  client2_ip = "192.168.1.83";
}

unfoldable pub audio_cap : Bool → SockaddrIn → ℤ → List ℕ → List Stream.CaptureRound → Stream.Thread
audio_cap = Stream.audio_cap

unfoldable pub play_audio : Bool → ℤ → List Stream.PlayRound → Stream.Thread
play_audio = Stream.play_audio

unfoldable pub start : (String → Option ℕ) → Start.Binding → Start.Started
start = Start.start conn2

unfoldable pub stream : ℕ → SockaddrIn → Start.Streams → List Stream.Event
stream = Start.stream

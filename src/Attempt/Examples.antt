-- ===== src/Attempt/Examples.antt =====
-- Runs of the earlier client and its theorems at concrete inputs.
use eng_project.Base.{ℕ, ◌≡◌, refl, true, false, [], ◌∷◌, ◌++◌, pos, some}
use eng_project.Client.Event.{closes}
use eng_project.Client.Connect.{made}
use eng_project.Client.Capture.{frames_read, broken}
use eng_project.Attempt.Client.{no_socket, refused, connected, connect_server, Streams, World, main}
use eng_project.Attempt.Client.Connecting.{refusals, connect_server-takes_first}

connect_server-takes_first_example :
    ((connect_server (some ((no_socket ∷ refused 4 ∷ []) ++ connected 5 ∷ []))).result ≡ pos 5)
    × ((s : ℕ)
        → closes
            (pos s)
            (connect_server (some ((no_socket ∷ refused 4 ∷ []) ++ connected 5 ∷ []))).events
          ≡ refusals s (no_socket ∷ refused 4 ∷ []))
connect_server-takes_first_example =
    connect_server-takes_first (no_socket ∷ refused 4 ∷ []) [] 5 (tt, (tt, tt))

-- One block is captured and sent, then the device fails; the playback device does not open.
abbrev streams : Streams
streams = record {
  capture_opened = true;
  buffer = [];
  capture_rounds =
      record {
        reading = frames_read 1 (1 ∷ 2 ∷ 3 ∷ 4 ∷ []);
        sent = pos 4;
        shown = pos 4;
        broken_pipe = false;
      }
      ∷ record { reading = broken; sent = pos 0; shown = pos 0; broken_pipe = false }
      ∷ [];
  playback_opened = false;
  playback_rounds = [];
}

abbrev no_view : World
no_view = record {
  servinfo = some (connected 5 ∷ []);
  capture = record { socket = made 6; connects = false };
  playback = record { socket = made 7; connects = true };
  streams = streams;
}

-- Without the visualizer nothing is streamed.
no_view_ends : (main no_view).code ≡ 1
unfolding main
no_view_ends = refl

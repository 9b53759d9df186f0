-- ===== src/Measure/Connect.antt =====
-- TCPMeasure/Basic/ClientBasicTCPM.cpp, `connect_to_server` and `main`. (The same functions stand in
-- TCPMeasure/Audio/TCPLBCl.cpp, with other threads.)
pub mod Equal
use eng_project.Base.{
  ℕ, zero, suc, Bool, true, false, List, [], ◌∷◌, ◌++◌, ℤ, pos, negsuc, is_minus_one, if◌then◌else◌,
}
use eng_project.Client.Event.{Event, close, sleep, perror, cerr}
use eng_project.Client.Connect.{
  Attempt, no_socket, bad_address, refused, connected, Connection, after_events,
}
use eng_project.Measure.Echo
use eng_project.Measure.Echo.{Beat, send_data_with_metrics}

-- `while (retries-- > 0)`; `attempt n` is what happens when `n` retries are left.
unfoldable pub connect_to_server : (ℕ → Attempt) → (retries : ℕ) → (delay_seconds : ℕ) → Connection
connect_to_server attempt zero delay_seconds = record { result = negsuc 0; events = [] }
connect_to_server attempt (suc retries) delay_seconds = elim (attempt retries) [
  | no_socket ↦
      after_events (perror "Socket creation failed" ∷ sleep delay_seconds ∷ [])
        (connect_to_server attempt retries delay_seconds)
  | bad_address sockfd ↦
      after_events
        (perror "Invalid address or address not supported"
          ∷ close (pos sockfd)
          ∷ sleep delay_seconds
          ∷ [])
        (connect_to_server attempt retries delay_seconds)
  | refused sockfd ↦
      after_events (perror "Connection failed" ∷ close (pos sockfd) ∷ sleep delay_seconds ∷ [])
        (connect_to_server attempt retries delay_seconds)
  | connected sockfd ↦ record { result = pos sockfd; events = [] }
]

abbrev pub retries : ℕ
retries = 5

abbrev pub delay : ℕ
delay = 2

-- What `main` does: its exit code, its events until it is connected, those of the threads, and the
-- sockets that it closes in the end.
pub record Run (E : Type 0) : Type 0 where
  pub code : ℕ
  pub connecting : List Event
  pub streaming : List E
  pub closed : List ℤ

-- `main`, around the threads that it starts and joins.
unfoldable pub with_server : {E : Type 0} → (ℕ → Attempt) → List E → Run E
unfolding connect_to_server
with_server attempt threads =
    let server = connect_to_server attempt retries delay in
    if is_minus_one server.result
    then record {
      code = 1;
      connecting = server.events ++ cerr "Failed to connect to server.\n" ∷ [];
      streaming = [];
      closed = [];
    }
    else record {
      code = 0;
      connecting = server.events;
      streaming = threads;
      closed = server.result ∷ [];
    }

unfoldable pub client_main : (ℕ → Attempt) → List Beat → Run Echo.Event
unfolding with_server
client_main attempt beats = with_server attempt (send_data_with_metrics beats)

-- ===== src/Measure/Server.antt =====
-- TCPMeasure/Audio/TCPLBSr.cpp, a relay server, and `main` of TCPMeasure/Basic/MeasureTCP.cpp. `handle_client` of the relay has the text of `handle_c` in TCPS/Server/TCPS.cpp but for the
-- names of two variables, and is that model.
use eng_project.Base.{
  ℕ, Option, none, some, true, false, List, [], ◌∷◌, ℤ, is_minus_one, is_pos, if◌then◌else◌,
}
use eng_project.Relay.Handler
use eng_project.Relay.Handler.{Waited}
use eng_project.Relay.System
use eng_project.Relay.Startup.{
  Event, socket, close, perror, cout, Candidate, no_socket, no_option, not_bound, bound, Start,
  ended, going,
}

unfoldable pub handle_client : Handler.Send → ℕ → List Handler.Turn → Handler.Handled
handle_client = Handler.handle_c

-- `while (waitpid(…) > 0) {}`: the `errno` that the loop leaves.
reap : ℕ → List Waited → ℕ
reap errno [] = errno
reap errno (w ∷ ws) = elim (is_pos w.result) [
  | true ↦ reap w.errno_after ws
  | false ↦ w.errno_after
]

-- `int saved_errno = errno; while (…) {} errno = saved_errno;`
unfoldable pub sigchld_handler : ℕ → List Waited → ℕ
unfolding reap
sigchld_handler errno calls =
    let saved_errno = errno in let during : ℕ = reap errno calls in saved_errno

-- `main` of TCPLBSr.cpp up to its loop, by what the calls return.
unfoldable pub start : Candidate → (listened installed : ℤ) → Start
start no_socket listened installed = ended 1 (perror "Socket creation failed" ∷ [])
start (no_option fd) listened installed =
    ended 1 (socket fd ∷ perror "Set socket options failed" ∷ [])
start (not_bound fd) listened installed = ended 1 (socket fd ∷ perror "Bind failed" ∷ close fd ∷ [])
start (bound fd) listened installed =
    if is_minus_one listened
    then ended 1 (socket fd ∷ perror "Listen failed" ∷ close fd ∷ [])
    else if is_minus_one installed
    then ended 1
        (socket fd ∷ cout "Server listening on port " ∷ perror "Sigaction setup failed" ∷ [])
    else going fd (socket fd ∷ cout "Server listening on port " ∷ [])

-- `main` of MeasureTCP.cpp up to its loop; `none` if `socket` fails.
unfoldable pub start_measuring : Option ℕ → (bound_result listened : ℤ) → Start
start_measuring none bound_result listened = ended 1 (perror "Socket creation failed" ∷ [])
start_measuring (some fd) bound_result listened =
    if is_minus_one bound_result
    then ended 1 (socket fd ∷ perror "Bind failed" ∷ close fd ∷ [])
    else if is_minus_one listened
    then ended 1 (socket fd ∷ perror "Listen failed" ∷ close fd ∷ [])
    else going fd (socket fd ∷ cout "Server listening on port " ∷ [])

-- The accepting loop of TCPLBSr.cpp and its threads: the steps of TCPS/Server/TCPS.cpp with other
-- texts. Nothing sets `stop_server`.
abbrev pub measure_texts : System.Texts
measure_texts = record { accept_fails = "Accept failed"; got_connection = "Connection from " }

unfoldable pub Step : Handler.Send → System.Server → List Handler.Event → System.Server → Type 0
Step = System.Step measure_texts

-- What the accepting loop of MeasureTCP.cpp has done: the clients of which it has started the
-- threads, and what it has printed.
pub record Accepted : Type 0 where
  pub started : List ℕ
  pub events : List Event

-- The loop, by what each `accept` returns.
unfoldable pub accept_loop : List (Option ℕ) → Accepted
accept_loop [] = record { started = []; events = [] }
accept_loop (none ∷ rest) =
    let more = accept_loop rest in record more { events = perror "Accept failed" ∷ more.events }
accept_loop (some client_sock ∷ rest) =
    let more = accept_loop rest in
    record {
      started = client_sock ∷ more.started;
      events = cout "Client connected.\n" ∷ more.events;
    }

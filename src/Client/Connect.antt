-- ===== src/Client/Connect.antt =====
-- TCPS/Client/TCPSC.cpp, `connect_server`, and the loops of `main` that connect to the visualizer.
pub mod Retries
use Prim.Native.String.{String}
use eng_project.Base.{
  ℕ, zero, suc, Bool, true, false, List, [], ◌∷◌, ◌++◌, ℤ, pos, negsuc, is_pos, if◌then◌else◌,
}
use eng_project.Client.Event.{Event, close, sleep, perror, cerr, cout}

-- What `socket`, `inet_pton` and `connect` did in one round.
pub data Attempt : Type 0 where
  no_socket : Attempt
  bad_address : (sockfd : ℕ) → Attempt
  refused : (sockfd : ℕ) → Attempt
  connected : (sockfd : ℕ) → Attempt

pub record Connection : Type 0 where
  pub result : ℤ
  pub events : List Event

abbrev pub after_events : List Event → Connection → Connection
after_events es c = record c { events = es ++ c.events }

-- `while (retries-- > 0)`; `attempt n` is what happens when `n` retries are left.
unfoldable pub connect_server : (ℕ → Attempt) → (delay_second : ℕ) → (retries : ℕ) → Connection
connect_server attempt delay_second zero = record {
  result = negsuc 0;
  events = cerr "Failed after retries.\n" ∷ [];
}
connect_server attempt delay_second (suc retries) = elim (attempt retries) [
  | no_socket ↦
      after_events (perror "client socket error" ∷ sleep delay_second ∷ [])
        (connect_server attempt delay_second retries)
  | bad_address sockfd ↦
      after_events
        (perror "Invalid address or not supported" ∷ close (pos sockfd) ∷ sleep delay_second ∷ [])
        (connect_server attempt delay_second retries)
  | refused sockfd ↦
      after_events (perror "connect error" ∷ close (pos sockfd) ∷ sleep delay_second ∷ [])
        (connect_server attempt delay_second retries)
  | connected sockfd ↦ record { result = pos sockfd; events = [] }
]

-- What `main` prints for a visualizer, in each of the two places.
pub record Texts : Type 0 where
  pub no_socket : String
  pub successful : String
  pub error : String
  pub failed : String

-- `while (retries-- > 0) if (connect(…) == 0) break; else sleep`: what the loop leaves in `retries`.
pub record Retried : Type 0 where
  pub retries : ℤ
  pub events : List Event

unfoldable pub retry_view : Texts → (ℕ → Bool) → (delay_second : ℕ) → ℕ → Retried
retry_view texts connects delay_second zero = record { retries = negsuc 0; events = [] }
retry_view texts connects delay_second (suc n) = elim (connects n) [
  | true ↦ record { retries = pos n; events = cout texts.successful ∷ [] }
  | false ↦
      let rest = retry_view texts connects delay_second n in
      record {
        retries = rest.retries;
        events = perror texts.error ∷ sleep delay_second ∷ rest.events;
      }
]

-- The socket for the visualizer: none if `socket` fails (here `none_made`), and none again if
-- `retries <= 0` after the loop.
pub data Made : Type 0 where
  none_made : Made
  made : (sockfd : ℕ) → Made

unfoldable pub connect_view :
    Texts → Made → (ℕ → Bool) → (delay_second max_retries : ℕ) → Connection
connect_view texts none_made connects delay_second max_retries = record {
  result = negsuc 0;
  events = perror texts.no_socket ∷ [];
}
connect_view texts (made sockfd) connects delay_second max_retries =
    let tried = retry_view texts connects delay_second max_retries in
    if is_pos tried.retries
    then record { result = pos sockfd; events = tried.events }
    else record { result = negsuc 0; events = tried.events ++ cerr texts.failed ∷ [] }

-- ===== src/WebRtc/Signaling.antt =====
-- WebRTC/Peers/signaling/SignalingClient.cpp. What Boost's WebSocket does is an input: the results of
-- `async_read`, in order, each handled by the lambda in `read`. The constructor may throw where the
-- host is not found or the handshake fails; this is left to the caller.
pub mod Delivery
pub mod Threads
use Prim.Native.String.{String}
use eng_project.Base.{ℕ, Bool, true, false, List, [], ◌∷◌, ◌++◌, if◌then◌else◌}

pub data Event : Type 0 where
  start_thread : Event  -- the thread that runs the `io_context`
  write : List ℕ → Event
  callback : List ℕ → Event
  cerr : String → Event

-- Whether `on_message_` holds a function, and the bytes in `buffer_`.
pub record SignalingClient : Type 0 where
  pub on_message : Bool
  pub buffer : List ℕ

-- A completed `async_read`: an error, or the bytes of one message, which are put behind those in the
-- buffer.
pub data Completion : Type 0 where
  failed : Completion
  received : List ℕ → Completion

pub record Outcome : Type 0 where
  pub client : SignalingClient
  pub again : Bool
  pub events : List Event

-- The lambda in `read`; `again` tells whether it calls `read` once more.
unfoldable pub handle : SignalingClient → Completion → Outcome
handle c failed = record {
  client = c;
  again = false;
  events = cerr "Error reading from signaling server: " ∷ [];
}
handle c (received bytes) =
    let message = c.buffer ++ bytes in
    record {
      client = record c { buffer = [] };
      again = true;
      events = if c.on_message then callback message ∷ [] else [];
    }

-- `read` and all that follows from it.
unfoldable pub read : SignalingClient → List Completion → List Event
unfolding handle
read c [] = []
read c (result ∷ results) =
    let now = handle c result in
    let more = read now.client results in now.events ++ (if now.again then more else [])

unfoldable pub connect : SignalingClient → List Completion → List Event
unfolding read
connect c results = start_thread ∷ read c results

unfoldable pub send : List ℕ → List Event
send message = write message ∷ []

unfoldable pub set_on_message : SignalingClient → SignalingClient
set_on_message c = record c { on_message = true }

-- The client that the constructor makes.
unfoldable pub signaling_client : SignalingClient
signaling_client = record { on_message = false; buffer = [] }

-- ===== src/WebRtc/Signaling/Threads.antt =====
-- WebRTC/Peers/signaling/SignalingClient.cpp, `connect`: the thread that runs the `io_context`, and the
-- thread that calls `connect`, which starts that thread first and calls `read` afterwards. When `run`
-- may return is a parameter; Boost says that it does so when there is no work left, and only then.
pub mod Race
pub mod Deaf
use eng_project.Base.{ℕ, ◌≡◌, Bool, true, false, List, [], ◌∷◌, ◌++◌}
use eng_project.WebRtc.Signaling.{Event, start_thread, SignalingClient, Completion, Outcome, handle}

-- The caller of `connect`.
pub data Caller : Type 0 where
  before_thread : Caller
  before_read : Caller
  connected : Caller

-- The thread that runs the `io_context`.
pub data Io : Type 0 where
  not_started : Io
  running : Io
  returned : Io

-- `pending`: an `async_read` is under way, which is the only work there is.
pub record Program : Type 0 where
  pub caller : Caller
  pub io : Io
  pub pending : Bool
  pub client : SignalingClient

abbrev pub begin : SignalingClient → Program
begin client = record { caller = before_thread; io = not_started; pending = false; client = client }

module _ (may_return : (work_left : Bool) → Type 0) where
  -- One step, with the reads that it completes and what it does.
  pub data Step (p : Program) : List Completion → List Event → Program → Type 0 where
    start :
        p.caller ≡ before_thread
        → Step p [] (start_thread ∷ []) (record p { caller = before_read; io = running })
    call_read :
        p.caller ≡ before_read → Step p [] [] (record p { caller = connected; pending = true })
    complete :
        (result : Completion)
        → p.io ≡ running
        → p.pending ≡ true
        → Step p (result ∷ []) (handle p.client result).events (record p {
          client = (handle p.client result).client;
          pending = (handle p.client result).again;
        })
    run_returns : p.io ≡ running → may_return p.pending → Step p [] [] (record p { io = returned })

  -- A run from the start, with the reads that have completed and all that was done.
  pub data Run (client : SignalingClient) : List Completion → List Event → Program → Type 0 where
    none_yet : Run client [] [] (begin client)
    more :
        {results rs : List Completion} {done es : List Event} {p q : Program}
        → Run client results done p
        → Step p rs es q
        → Run client (results ++ rs) (done ++ es) q

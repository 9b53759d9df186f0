-- ===== src/WebRtc/Examples.antt =====
-- A run of the signaling client, and its theorem at a concrete input.
use eng_project.Base.{ℕ, ◌≡◌, ◌⊎◌, refl, Bool, true, false, List, [], ◌∷◌, ◌++◌, map}
use eng_project.WebRtc.Signaling.{Completion, failed, received, connect}
use eng_project.WebRtc.Signaling.Delivery.{fresh}
use eng_project.WebRtc.Signaling.Threads.{
  connected, returned, Program, start, call_read, complete, run_returns, Run, none_yet, more,
}
use eng_project.WebRtc.Signaling.Threads.Race.{IsServed, connect-threaded}

-- `run` returns when no read is under way.
abbrev WhenIdle : Bool → Type 0
WhenIdle work_left = work_left ≡ false

-- Two messages and an error, after which `run` returns.
abbrev completed : List Completion
completed = received (1 ∷ []) ∷ received (2 ∷ 3 ∷ []) ∷ failed ∷ []

abbrev last : Program
last = record { caller = connected; io = returned; pending = false; client = fresh true }

all_read : Run WhenIdle (fresh true) completed (connect (fresh true) completed) last
unfolding connect
all_read =
    more
      (more
        (more
          (more (more (more none_yet (start refl)) (call_read refl))
            (complete (received (1 ∷ [])) refl refl))
          (complete (received (2 ∷ 3 ∷ [])) refl refl))
        (complete failed refl refl))
      (run_returns refl refl)

connect-threaded_example :
    (connected ≡ connected
      → IsServed true last completed (connect (fresh true) completed)
        × (connect (fresh true) completed ≡ connect (fresh true) completed))
    × (returned ≡ returned
        → (completed ≡ [])
          ⊎ ((messages : List (List ℕ)) × (completed ≡ map received messages ++ failed ∷ [])))
connect-threaded_example = connect-threaded WhenIdle (λ e. cc) true all_read

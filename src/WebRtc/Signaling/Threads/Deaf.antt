-- ===== src/WebRtc/Signaling/Threads/Deaf.antt =====
-- What happens if `run` returns before there is a read: WebRTC/Peers/signaling/SignalingClient.cpp.
use eng_project.Base.{◌≡◌, refl, Bool, true, false, List, [], ◌∷◌}
use eng_project.WebRtc.Signaling.{Event, start_thread, SignalingClient, Completion}
use eng_project.WebRtc.Signaling.Threads.{
  connected, returned, Program, Step, start, call_read, complete, run_returns, Run, none_yet, more,
}

-- The client may stay deaf: if `run` may return when there is no work, then there is a run in which
-- `connect` has returned, its read is under way, and no step is possible any more, so that no
-- message will ever be read.
lost_race-deaf :
    (may_return : Bool → Type 0) (client : SignalingClient)
    → may_return false
    → (p : Program) × Run may_return client [] (start_thread ∷ []) p
      × (p.caller ≡ connected)
      × (p.pending ≡ true)
      × ((rs : List Completion) (es : List Event) (q : Program) → ¬ Step may_return p rs es q)
lost_race-deaf may_return client leaves = (
  record { caller = connected; io = returned; pending = true; client = client },
  more (more (more none_yet (start refl)) (run_returns refl leaves)) (call_read refl),
  refl,
  refl,
  stuck,
)
  where
    stuck :
        (rs : List Completion) (es : List Event) (q : Program)
        → ¬ Step may_return
            (record { caller = connected; io = returned; pending = true; client = client })
            rs
            es
            q
    stuck rs es q (start e) = absurd (cc)
    stuck rs es q (call_read e) = absurd (cc)
    stuck rs es q (complete x e f) = absurd (cc)
    stuck rs es q (run_returns e m) = absurd (cc)

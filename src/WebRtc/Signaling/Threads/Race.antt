-- ===== src/WebRtc/Signaling/Threads/Race.antt =====
-- When messages are read, and when they never are.
use mathlib.Core.List.{map-append}
use eng_project.Base.{
  ℕ, ◌≡◌, ◌⊎◌, refl, ap, ap₂, sym, ◌∙◌, subst, inl, inr, Bool, true, false, List, [], ◌∷◌, ◌++◌,
  append-nil, map, if◌then◌else◌,
}
use eng_project.WebRtc.Signaling.{
  Event, start_thread, callback, cerr, SignalingClient, Completion, failed, received, handle, read,
  connect,
}
use eng_project.WebRtc.Signaling.Delivery.{fresh, read-delivers}
use eng_project.WebRtc.Signaling.Threads.{
  before_thread, before_read, connected, returned, Program, Step, start, call_read, complete,
  run_returns, Run, none_yet, more,
}

-- What becomes of these messages: where `on_message_` holds a function each goes to it once, in order;
-- where it holds none they are dropped.
abbrev pub heard : Bool → List (List ℕ) → List Event
heard on_message messages = if on_message then map callback messages else []

read-received :
    (on_message : Bool) (messages : List (List ℕ))
    → read (fresh on_message) (map received messages) ≡ heard on_message messages
unfolding read
read-received true [] = refl
read-received false [] = refl
read-received true (m ∷ messages) = ap (◌∷◌ (callback m)) (read-received true messages)
read-received false (m ∷ messages) = read-received false messages

heard-snoc :
    (on_message : Bool) (messages : List (List ℕ)) (m : List ℕ)
    → heard on_message messages ++ (handle (fresh on_message) (received m)).events
      ≡ heard on_message (messages ++ m ∷ [])
unfolding handle
heard-snoc true messages m = sym (map-append callback messages (m ∷ []))
heard-snoc false messages m = refl

heard-nil : (on_message : Bool) → heard on_message [] ≡ []
heard-nil true = refl
heard-nil false = refl

-- What has completed, and what was done with it, once `connect` has returned: the read that is under
-- way comes after any number of messages, and none is under way after a failure.
abbrev pub IsServed : Bool → Program → List Completion → List Event → Type 0
IsServed on_message p results done =
    (messages : List (List ℕ)) × (((p.pending ≡ true)
        × (results ≡ map received messages)
        × (done ≡ start_thread ∷ heard on_message messages))
      ⊎ ((p.pending ≡ false)
          × (results ≡ map received messages ++ failed ∷ [])
          × (done
              ≡ start_thread
                ∷ (heard on_message messages
                    ++ cerr "Error reading from signaling server: " ∷ []))))

-- Where a run stands.
data Phase (on_message : Bool) (results : List Completion) (done : List Event) (p : Program)
    : Type 0 where
  idle :
      p.caller ≡ before_thread
      → p.pending ≡ false
      → results ≡ []
      → done ≡ []
      → Phase on_message results done p
  started :
      p.caller ≡ before_read
      → p.pending ≡ false
      → results ≡ []
      → done ≡ start_thread ∷ []
      → Phase on_message results done p
  reading :
      (messages : List (List ℕ))
      → p.caller ≡ connected
      → p.pending ≡ true
      → results ≡ map received messages
      → done ≡ start_thread ∷ heard on_message messages
      → (p.io ≡ returned → messages ≡ [])
      → Phase on_message results done p
  ended :
      (messages : List (List ℕ))
      → p.caller ≡ connected
      → p.pending ≡ false
      → results ≡ map received messages ++ failed ∷ []
      → done
        ≡ start_thread
          ∷ (heard on_message messages ++ cerr "Error reading from signaling server: " ∷ [])
      → Phase on_message results done p

module _ (may_return : Bool → Type 0) (stays : ¬ may_return true) (on_message : Bool) where
  Step-Phase :
      {p : Program} {results rs : List Completion} {done es : List Event} {q : Program}
      → p.client ≡ fresh on_message
      → Phase on_message results done p
      → Step may_return p rs es q
      → (q.client ≡ fresh on_message) × Phase on_message (results ++ rs) (done ++ es) q
  unfolding handle
  Step-Phase c (idle a b r d) (start e) = (c, started refl b (rw r) (rw d))
  Step-Phase c (idle a b r d) (call_read e) = absurd (cc)
  Step-Phase c (idle a b r d) (complete x e f) = absurd (cc)
  Step-Phase c (idle a b r d) (run_returns e m) = (c, idle a b (rw r) (rw d))
  Step-Phase c (started a b r d) (start e) = absurd (cc)
  Step-Phase c (started a b r d) (call_read e) = (
    c,
    reading [] refl refl (rw r)
        (append-nil _ ∙ (d ∙ ap (◌∷◌ start_thread) (sym (heard-nil on_message)))) (λ _. refl),
  )
  Step-Phase c (started a b r d) (complete x e f) = absurd (cc)
  Step-Phase c (started a b r d) (run_returns e m) = (c, started a b (rw r) (rw d))
  Step-Phase c (reading ms a b r d k) (start e) = absurd (cc)
  Step-Phase c (reading ms a b r d k) (call_read e) = absurd (cc)
  Step-Phase c (reading ms a b r d k) (complete failed e f) = (
    c,
    ended ms a refl (ap (λ (l : List Completion). l ++ failed ∷ []) r)
        (ap (λ (l : List Event). l ++ cerr "Error reading from signaling server: " ∷ []) d),
  )
  Step-Phase c (reading ms a b r d k) (complete (received m) e f) = (
    ap (λ (x : SignalingClient). record x { buffer = [] }) c,
    reading (ms ++ m ∷ []) a refl
        (ap (λ (l : List Completion). l ++ received m ∷ []) r
          ∙ sym (map-append received ms (m ∷ [])))
        (ap₂ ◌++◌ d (ap (λ (x : SignalingClient). (handle x (received m)).events) c)
          ∙ ap (◌∷◌ start_thread) (heard-snoc on_message ms m))
        (λ gone. absurd (cc)),
  )
  Step-Phase c (reading ms a b r d k) (run_returns e m) = absurd (stays (subst may_return b m))
  Step-Phase c (ended ms a b r d) (start e) = absurd (cc)
  Step-Phase c (ended ms a b r d) (call_read e) = absurd (cc)
  Step-Phase c (ended ms a b r d) (complete x e f) = absurd (cc)
  Step-Phase c (ended ms a b r d) (run_returns e m) =
      (c, ended ms a b (append-nil _ ∙ r) (append-nil _ ∙ d))

  Run-Phase :
      {p : Program} {results : List Completion} {done : List Event}
      → Run may_return (fresh on_message) results done p
      → (p.client ≡ fresh on_message) × Phase on_message results done p
  Run-Phase none_yet = (refl, idle refl refl refl refl)
  Run-Phase (more run st) = let (client, phase) = Run-Phase run in Step-Phase client phase st

  done-connect :
      {p : Program} {results : List Completion} {done : List Event}
      → Phase on_message results done p
      → p.caller ≡ connected
      → done ≡ connect (fresh on_message) results
  unfolding connect
  done-connect (idle a b r d) e = absurd (cc)
  done-connect (started a b r d) e = absurd (cc)
  done-connect (reading ms a b r d k) e =
      rw (d, r) (ap (◌∷◌ start_thread) (sym (read-received on_message ms)))
  done-connect (ended ms a b r d) e =
      rw (d, r) (ap (◌∷◌ start_thread) (sym (read-delivers on_message ms [])))

  phase-IsServed :
      {p : Program} {results : List Completion} {done : List Event}
      → Phase on_message results done p
      → p.caller ≡ connected
      → IsServed on_message p results done
  phase-IsServed (idle a b r d) e = absurd (cc)
  phase-IsServed (started a b r d) e = absurd (cc)
  phase-IsServed (reading ms a b r d k) e = (ms, inl (b, r, d))
  phase-IsServed (ended ms a b r d) e = (ms, inr (b, r, d))

  why_returned :
      {p : Program} {results : List Completion} {done : List Event}
      → Phase on_message results done p
      → p.io ≡ returned
      → (results ≡ [])
        ⊎ ((messages : List (List ℕ)) × (results ≡ map received messages ++ failed ∷ []))
  why_returned (idle a b r d) e = inl r
  why_returned (started a b r d) e = inl r
  why_returned (reading ms a b r d k) e = inl (r ∙ ap (map received) (k e))
  why_returned (ended ms a b r d) e = inr (ms, r)

  -- If `run` does not return while a read is under way, then in every run, however the two threads
  -- take turns, what has been done once `connect` has returned is what `connect` does with the reads
  -- that have completed. These have brought some messages, and a read is under way; or some messages
  -- and then a failure, which was reported, and none is. If a callback is set, each of these messages
  -- has gone to it once and in order, and nothing else has; if none is set, as in
  -- WebRTC/Peers/src/main.cpp, the messages are dropped. And if `run` has returned, then no read has
  -- completed at all, or the last one failed and all before it brought messages.
  pub connect-threaded :
      {p : Program} {results : List Completion} {done : List Event}
      → Run may_return (fresh on_message) results done p
      → (p.caller ≡ connected
          → IsServed on_message p results done × (done ≡ connect (fresh on_message) results))
        × (p.io ≡ returned
            → (results ≡ [])
              ⊎ ((messages : List (List ℕ)) × (results ≡ map received messages ++ failed ∷ [])))
  connect-threaded run =
      let phase = (Run-Phase run).1 in
      (λ e. (phase-IsServed phase e, done-connect phase e), why_returned phase)

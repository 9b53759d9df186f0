-- ===== src/Tracks/Waiting/Safety.antt =====
-- When `main` closes the socket, and what wakes it.
use eng_project.Base.{◌≡◌, refl, subst, Bool, true, false}
use eng_project.Tracks.Waiting.{
  Main, testing, about_to_block, blocked, joining, joining_playback, closed, System, Agent, program,
  woken, Step, test_holds, test_fails, block, spurious_wake, signal, notify_all, capture_stops,
  capture_ends, playback_stops, playback_ends, join_capture, join_playback, Reach, start, later,
  Alone, here, after,
}

-- What `main` has seen where it stands.
abbrev IsDue : Main → (stop capture playback : Bool) → Type 0
IsDue testing stop capture playback = Unit {0}
IsDue about_to_block stop capture playback = Unit {0}
IsDue blocked stop capture playback = Unit {0}
IsDue joining stop capture playback = stop ≡ true
IsDue joining_playback stop capture playback = (stop ≡ true) × (capture ≡ false)
IsDue closed stop capture playback = (stop ≡ true) × (capture ≡ false) × (playback ≡ false)

abbrev Due : System → Type 0
Due s = IsDue s.main s.stop_streaming s.capture_runs s.playback_runs

-- Setting the flag, or the end of a thread, takes nothing from what `main` has seen.
Due-mono :
    (m : Main) (stop capture playback stop' capture' playback' : Bool)
    → IsDue m stop capture playback
    → (stop ≡ true → stop' ≡ true)
    → (capture ≡ false → capture' ≡ false)
    → (playback ≡ false → playback' ≡ false)
    → IsDue m stop' capture' playback'
Due-mono testing stop c p stop' c' p' d f g h = tt
Due-mono about_to_block stop c p stop' c' p' d f g h = tt
Due-mono blocked stop c p stop' c' p' d f g h = tt
Due-mono joining stop c p stop' c' p' d f g h = f d
Due-mono joining_playback stop c p stop' c' p' d f g h = (f d.0, g d.1)
Due-mono closed stop c p stop' c' p' d f g h = (f d.0, g d.1, h d.2)

Due-woken : (m : Main) (stop c p : Bool) → IsDue m stop c p → IsDue (woken m) stop c p
Due-woken testing stop c p d = d
Due-woken about_to_block stop c p d = d
Due-woken blocked stop c p d = d
Due-woken joining stop c p d = d
Due-woken joining_playback stop c p d = d
Due-woken closed stop c p d = d

Step-Due : {s t : System} {a : Agent} → Step s a t → Due s → Due t
Step-Due (test_holds m e) d = e
Step-Due (test_fails m e) d = tt
Step-Due (block m) d = tt
Step-Due (spurious_wake m) d = tt
Step-Due {s} (signal h) d =
    Due-mono s.main s.stop_streaming s.capture_runs s.playback_runs _ _ _ d (λ e. refl) (λ e. e)
      (λ e. e)
Step-Due {s} (notify_all h) d = Due-woken s.main s.stop_streaming s.capture_runs s.playback_runs d
Step-Due {s} (capture_stops c) d =
    Due-mono s.main s.stop_streaming s.capture_runs s.playback_runs _ _ _ d (λ e. refl) (λ e. e)
      (λ e. e)
Step-Due {s} (capture_ends c) d =
    Due-mono s.main s.stop_streaming s.capture_runs s.playback_runs _ _ _ d (λ e. e) (λ e. refl)
      (λ e. e)
Step-Due {s} (playback_stops c) d =
    Due-mono s.main s.stop_streaming s.capture_runs s.playback_runs _ _ _ d (λ e. refl) (λ e. e)
      (λ e. e)
Step-Due {s} (playback_ends c) d =
    Due-mono s.main s.stop_streaming s.capture_runs s.playback_runs _ _ _ d (λ e. e) (λ e. e)
      (λ e. refl)
Step-Due {s} (join_capture m e) d =
    (subst (λ (x : Main). IsDue x s.stop_streaming s.capture_runs s.playback_runs) m d, e)
Step-Due {s} (join_playback m e) d =
    let (stop, capture) =
      subst (λ (x : Main). IsDue x s.stop_streaming s.capture_runs s.playback_runs) m d in
    (stop, capture, e)

Reach-Due : {s : System} → Reach s → Due s
Reach-Due start = tt
Reach-Due (later r st) = Step-Due st (Reach-Due r)

-- The socket outlives its users: in every reachable state in which `main` has closed the socket, the
-- flag is set and both threads have returned, so that neither uses the socket any more.
pub closed-last :
    {s : System}
    → Reach s
    → s.main ≡ closed
    → (s.stop_streaming ≡ true) × (s.capture_runs ≡ false) × (s.playback_runs ≡ false)
closed-last {s} r m =
    subst (λ (x : Main). IsDue x s.stop_streaming s.capture_runs s.playback_runs) m (Reach-Due r)

abbrev IsBlocked : System → Type 0
IsBlocked s = s.main ≡ blocked

Step-IsBlocked : {s t : System} → Step s program t → IsBlocked s → IsBlocked t
Step-IsBlocked (test_holds m e) b = cc
Step-IsBlocked (test_fails m e) b = cc
Step-IsBlocked (block m) b = refl
Step-IsBlocked (capture_stops c) b = b
Step-IsBlocked (capture_ends c) b = b
Step-IsBlocked (playback_stops c) b = b
Step-IsBlocked (playback_ends c) b = b
Step-IsBlocked (join_capture m e) b = cc
Step-IsBlocked (join_playback m e) b = cc

-- An error does not end the program: once `main` waits, nothing that the program does by itself
-- wakes it, also not a thread that sets the flag and returns. It takes a signal, or a wake-up without
-- a reason.
pub error-hangs : {s t : System} → s.main ≡ blocked → Alone s t → t.main ≡ blocked
error-hangs b here = b
error-hangs b (after r st) = Step-IsBlocked st (error-hangs b r)

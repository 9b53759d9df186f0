-- ===== src/Tracks/Waiting.antt =====
-- Online_Tracks/UDPconn1.cpp: `init_sig`, the wait of `main` on the condition variable, and the end
-- of its threads, interleaved in any order. (UDPconn2.cpp has the same text.)
pub mod Safety
use eng_project.Base.{ℕ, ◌≡◌, Bool, true, false}

-- Where `main` stands from the start of the threads on. `stop_condition.wait` tests the predicate,
-- blocks if it does not hold, and tests again when it is woken.
pub data Main : Type 0 where
  testing : Main
  about_to_block : Main
  blocked : Main
  joining : Main
  joining_playback : Main
  closed : Main  -- after `close(sockfd)`

-- The signal handler: it has been entered and has set the flag, or is not running.
pub data Handler : Type 0 where
  idle : Handler
  flag_set : Handler

pub record System : Type 0 where
  pub stop_streaming : Bool
  pub main : Main
  pub handler : Handler
  pub capture_runs : Bool
  pub playback_runs : Bool

-- Who makes a step: the program itself, or the world (a signal, a wake-up without a reason).
pub data Agent : Type 0 where
  program : Agent
  world : Agent

abbrev pub woken : Main → Main
woken blocked = testing
woken m = m

pub data Step (s : System) : Agent → System → Type 0 where
  test_holds :
      s.main ≡ testing → s.stop_streaming ≡ true → Step s program (record s { main = joining })
  test_fails :
      s.main ≡ testing
      → s.stop_streaming ≡ false
      → Step s program (record s { main = about_to_block })
  block : s.main ≡ about_to_block → Step s program (record s { main = blocked })
  spurious_wake : s.main ≡ blocked → Step s world (record s { main = testing })
  -- `init_sig(SIGINT)`, and its two statements
  signal : s.handler ≡ idle → Step s world (record s { stop_streaming = true; handler = flag_set })
  notify_all :
      s.handler ≡ flag_set → Step s world (record s { main = woken s.main; handler = idle })
  -- A thread sets the flag before it leaves its loop, or returns.
  capture_stops : s.capture_runs ≡ true → Step s program (record s { stop_streaming = true })
  capture_ends : s.capture_runs ≡ true → Step s program (record s { capture_runs = false })
  playback_stops : s.playback_runs ≡ true → Step s program (record s { stop_streaming = true })
  playback_ends : s.playback_runs ≡ true → Step s program (record s { playback_runs = false })
  join_capture :
      s.main ≡ joining
      → s.capture_runs ≡ false
      → Step s program (record s { main = joining_playback })
  join_playback :
      s.main ≡ joining_playback
      → s.playback_runs ≡ false
      → Step s program (record s { main = closed })

-- `main` when it has started the threads.
abbrev pub init : System
init = record {
  stop_streaming = false;
  main = testing;
  handler = idle;
  capture_runs = true;
  playback_runs = true;
}

pub data Reach : System → Type 0 where
  start : Reach init
  later : {s t : System} {a : Agent} → Reach s → Step s a t → Reach t

-- Steps of the program alone.
pub data Alone (s : System) : System → Type 0 where
  here : Alone s s
  after : {t u : System} → Alone s t → Step t program u → Alone s u

-- ===== src/Client/Threads/Parts.antt =====
-- In each run of `main` with its two threads in TCPS/Client/TCPSC.cpp: what each has done by where
-- it stands.
use eng_project.Base.{
  ◌≡◌, ◌≢◌, refl, ap, subst, ◌∙◌, Bool, false, ◌||◌, List, [], ◌∷◌, ◌++◌, append-nil, ℕ, ℤ, arith,
}
use eng_project.Client.Event.{Event, cout}
use eng_project.Client.Threads.{
  Position, opening, testing, working, closing, ended, Main, starting, joining_capture,
  joining_playback, finished, Threads, Who, by_capture, by_playback, by_main, close_all, Step,
  capture_opens, capture_fails, capture_tests, capture_works, capture_closes, playback_opens,
  playback_fails, playback_tests, playback_works, playback_closes, main_prints, main_joins,
  main_closes, made, Run, at_first, and_then,
}
use eng_project.Client.Threads.Trace.{done_by}
use eng_project.Client.Threads.Positions.{
  Captured, Captured-opens, Captured-fails, Captured-tests, Captured-works, Captured-closes, Played,
  Played-opens, Played-fails, Played-tests, Played-works, Played-closes,
}

module _ (sockfd cap_view play_view : ℤ) (first : List ℕ) where
  -- What `main` has done by a place.
  abbrev pub Did : Main → List Event → Type 0
  Did starting es = es ≡ []
  Did joining_capture es = es ≡ cout "Press Ctrl+C to stop streaming..." ∷ []
  Did joining_playback es = es ≡ cout "Press Ctrl+C to stop streaming..." ∷ []
  Did finished es =
      es ≡ cout "Press Ctrl+C to stop streaming..." ∷ close_all sockfd cap_view play_view

  -- How a run is made up of what the threads do by themselves, and that `main` has joined those that
  -- it waited for.
  pub record Parts (t : Threads) (trace : List (Who × List Event)) : Type 0 where
    pub cap_stop : Bool
    pub play_stop : Bool
    pub captured :
        Captured sockfd cap_view first t.capture t.buffer (done_by by_capture trace) cap_stop
    pub played : Played play_view t.playback (done_by by_playback trace) play_stop
    pub did : Did t.main (done_by by_main trace)
    pub flag : t.stop_streaming ≡ (cap_stop || play_stop)
    pub capture_joined : (t.main ≡ joining_playback) → t.capture ≡ ended
    pub playback_joined : (t.main ≡ finished) → (t.capture ≡ ended) × (t.playback ≡ ended)

  pub Captured-at :
      {t : Threads} {trace : List (Who × List Event)} (h : Parts t trace) (p : Position)
      → t.capture ≡ p
      → Captured sockfd cap_view first p t.buffer (done_by by_capture trace) h.cap_stop
  Captured-at {t} {trace} h p at =
      subst
        (λ (x : Position).
          Captured sockfd cap_view first x t.buffer (done_by by_capture trace) h.cap_stop)
        at h.captured

  pub Played-at :
      {t : Threads} {trace : List (Who × List Event)} (h : Parts t trace) (p : Position)
      → t.playback ≡ p
      → Played play_view p (done_by by_playback trace) h.play_stop
  Played-at {t} {trace} h p at =
      subst (λ (x : Position). Played play_view x (done_by by_playback trace) h.play_stop) at
        h.played

  capture_moved :
      {t : Threads} {trace : List (Who × List Event)} (h : Parts t trace) (p : Position)
      (buffer : List ℕ) (es : List Event) (stop sets : Bool)
      → t.capture ≢ ended
      → Captured sockfd cap_view first p buffer (done_by by_capture trace ++ es) sets
      → stop ≡ (sets || h.play_stop)
      → Parts
          (record t { stop_streaming = stop; capture = p; buffer = buffer })
          ((by_capture, es) ∷ trace)
  unfolding done_by
  capture_moved {t} {trace} h p buffer es stop sets busy captured flag = record {
    cap_stop = sets;
    play_stop = h.play_stop;
    captured = captured;
    played = h.played;
    did = h.did;
    flag = flag;
    capture_joined = λ m. absurd (busy (h.capture_joined m));
    playback_joined = λ m. absurd (busy (h.playback_joined m).0);
  }

  playback_moved :
      {t : Threads} {trace : List (Who × List Event)} (h : Parts t trace) (p : Position)
      (es : List Event) (stop sets : Bool)
      → t.playback ≢ ended
      → Played play_view p (done_by by_playback trace ++ es) sets
      → stop ≡ (h.cap_stop || sets)
      → Parts (record t { stop_streaming = stop; playback = p }) ((by_playback, es) ∷ trace)
  unfolding done_by
  playback_moved {t} {trace} h p es stop sets busy played flag = record {
    cap_stop = h.cap_stop;
    play_stop = sets;
    captured = h.captured;
    played = played;
    did = h.did;
    flag = flag;
    capture_joined = h.capture_joined;
    playback_joined = λ m. absurd (busy (h.playback_joined m).1);
  }

  pub Did-at :
      {t : Threads} {trace : List (Who × List Event)} (h : Parts t trace) (m : Main)
      → t.main ≡ m
      → Did m (done_by by_main trace)
  Did-at {t} {trace} h m at = subst (λ (x : Main). Did x (done_by by_main trace)) at h.did

  main_moved :
      {t : Threads} {trace : List (Who × List Event)} (h : Parts t trace) (m : Main)
      (es : List Event)
      → Did m (done_by by_main trace ++ es)
      → (m ≡ joining_playback → t.capture ≡ ended)
      → (m ≡ finished → (t.capture ≡ ended) × (t.playback ≡ ended))
      → Parts (record t { main = m }) ((by_main, es) ∷ trace)
  unfolding done_by
  main_moved {t} {trace} h m es did capture_joined playback_joined = record {
    cap_stop = h.cap_stop;
    play_stop = h.play_stop;
    captured = h.captured;
    played = h.played;
    did = did;
    flag = h.flag;
    capture_joined = capture_joined;
    playback_joined = playback_joined;
  }

  Step-Parts :
      {t u : Threads} {who : Who} {es : List Event} {trace : List (Who × List Event)}
      → Step sockfd cap_view play_view t who es u
      → Parts t trace
      → Parts u ((who, es) ∷ trace)
  unfolding done_by
  Step-Parts {t} {trace = trace} (capture_opens at) h =
      capture_moved h testing t.buffer [] t.stop_streaming h.cap_stop (λ e. cc)
        (rw (append-nil (done_by by_capture trace)) (
          Captured-opens sockfd cap_view first t.buffer (done_by by_capture trace) h.cap_stop
            (Captured-at h opening at)))
        h.flag
  Step-Parts {t} {trace = trace} (capture_fails at) h =
      capture_moved h ended t.buffer _ t.stop_streaming h.cap_stop (λ e. cc)
        (Captured-fails sockfd cap_view first t.buffer (done_by by_capture trace) h.cap_stop
          (Captured-at h opening at))
        h.flag
  Step-Parts {t} {trace = trace} (capture_tests at) h =
      capture_moved h _ t.buffer [] t.stop_streaming h.cap_stop (λ e. cc)
        (rw (append-nil (done_by by_capture trace)) (
          Captured-tests sockfd cap_view first t.stop_streaming t.buffer (done_by by_capture trace)
            h.cap_stop (Captured-at h testing at)))
        h.flag
  Step-Parts {t} {trace = trace} (capture_works r at) h =
      let inside = Captured-at h working at in
      let (rs, loops, did, keeps, sets, off) = inside in
      capture_moved h _ _ _ _ _ (λ e. cc)
        (Captured-works sockfd cap_view first r t.buffer (done_by by_capture trace) h.cap_stop
          inside)
        (ground (arith, h.flag))
  Step-Parts {t} {trace = trace} (capture_closes at) h =
      capture_moved h ended t.buffer _ t.stop_streaming h.cap_stop (λ e. cc)
        (Captured-closes sockfd cap_view first t.buffer (done_by by_capture trace) h.cap_stop
          (Captured-at h closing at))
        h.flag
  Step-Parts {t} {trace = trace} (playback_opens at) h =
      playback_moved h testing [] t.stop_streaming h.play_stop (λ e. cc)
        (rw (append-nil (done_by by_playback trace))
          (Played-opens play_view (done_by by_playback trace) h.play_stop (Played-at h opening at)))
        h.flag
  Step-Parts {t} {trace = trace} (playback_fails at) h =
      playback_moved h ended _ t.stop_streaming h.play_stop (λ e. cc)
        (Played-fails play_view (done_by by_playback trace) h.play_stop (Played-at h opening at))
        h.flag
  Step-Parts {t} {trace = trace} (playback_tests at) h =
      playback_moved h _ [] t.stop_streaming h.play_stop (λ e. cc)
        (rw (append-nil (done_by by_playback trace)) (
          Played-tests play_view t.stop_streaming (done_by by_playback trace) h.play_stop
            (Played-at h testing at)))
        h.flag
  Step-Parts {t} {trace = trace} (playback_works r at) h =
      let inside = Played-at h working at in
      let (rs, loops, did, sets, off) = inside in
      playback_moved h _ _ _ _ (λ e. cc)
        (Played-works play_view r (done_by by_playback trace) h.play_stop inside)
        (ground (arith, h.flag))
  Step-Parts {t} {trace = trace} (playback_closes at) h =
      playback_moved h ended _ t.stop_streaming h.play_stop (λ e. cc)
        (Played-closes play_view (done_by by_playback trace) h.play_stop (Played-at h closing at))
        h.flag
  Step-Parts {t} {trace = trace} (main_prints at) h =
      main_moved h joining_capture _
        (ap (λ (l : List Event). l ++ cout "Press Ctrl+C to stop streaming..." ∷ [])
          (Did-at h starting at))
        (λ m. cc) (λ m. cc)
  Step-Parts {t} {trace = trace} (main_joins at joined) h =
      main_moved h joining_playback []
        (append-nil (done_by by_main trace) ∙ Did-at h joining_capture at) (λ m. joined) (λ m. cc)
  Step-Parts {t} {trace = trace} (main_closes at joined) h =
      main_moved h finished _
        (ap (λ (l : List Event). l ++ close_all sockfd cap_view play_view)
          (Did-at h joining_playback at))
        (λ m. cc) (λ m. (h.capture_joined at, joined))

  pub Run-Parts :
      {t : Threads} {trace : List (Who × List Event)}
      → Run sockfd cap_view play_view (made first) trace t
      → Parts t trace
  unfolding done_by
  Run-Parts at_first = record {
    cap_stop = false;
    play_stop = false;
    captured = (refl, refl, refl);
    played = (refl, refl);
    did = refl;
    flag = refl;
    capture_joined = λ m. cc;
    playback_joined = λ m. cc;
  }
  Run-Parts (and_then run st) = Step-Parts st (Run-Parts run)

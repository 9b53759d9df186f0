-- ===== src/Client/Threads/Stopping.antt =====
-- How the client of TCPS/Client/TCPSC.cpp ends once `stop_streaming` is set.
use eng_project.Base.{ℕ, suc, ◌+◌, ◌≤◌, ◌≡◌, ◌⊎◌, inl, inr, refl, true, List, ℤ, length, arith}
use eng_project.Client.Event.{Event}
use eng_project.Client.Threads.{
  Position, opening, testing, working, closing, ended, Main, starting, joining_capture,
  joining_playback, finished, Threads, Who, Step, capture_opens, capture_fails, capture_tests,
  capture_works, capture_closes, playback_opens, playback_fails, playback_tests, playback_works,
  playback_closes, main_prints, main_joins, main_closes, Run, at_first, and_then,
}

-- The steps that a thread has at most before it, once the flag is set.
abbrev left : Position → ℕ
left opening = 3
left testing = 2
left working = 3
left closing = 1
left ended = 0

abbrev main_left : Main → ℕ
main_left starting = 3
main_left joining_capture = 2
main_left joining_playback = 1
main_left finished = 0

abbrev all_left : Threads → ℕ
all_left t = left t.capture + left t.playback + main_left t.main

left_at_most : (s : Threads) {n : ℕ} → n ≤ all_left s → n ≤ 9
left_at_most s le = ground arith

module _ (sockfd cap_view play_view : ℤ) where
  -- The step waits for no call of a loop's body: not for `snd_pcm_readi`, not for `recv`.
  abbrev pub IsPrompt :
      {t u : Threads} {who : Who} {es : List Event}
      → Step sockfd cap_view play_view t who es u
      → Type 0
  IsPrompt (capture_works r at) = ⊥
  IsPrompt (playback_works r at) = ⊥
  IsPrompt _ = Unit

  -- Some thread can go on, whatever the calls in the bodies of the loops do.
  abbrev pub CanStep : Threads → Type 0
  CanStep t =
      (who : Who) × (es : List Event) × (u : Threads) × (st : Step sockfd cap_view play_view t who
        es u)
      × IsPrompt st

  Step-left :
      {t u : Threads} {who : Who} {es : List Event}
      → Step sockfd cap_view play_view t who es u
      → t.stop_streaming ≡ true
      → (u.stop_streaming ≡ true) × (suc (all_left u) ≤ all_left t)
  Step-left (capture_opens at) on = (on, ground arith)
  Step-left (capture_fails at) on = (on, ground arith)
  Step-left (capture_tests at) on = (on, ground arith)
  Step-left (capture_works r at) on = ground arith
  Step-left (capture_closes at) on = (on, ground arith)
  Step-left (playback_opens at) on = (on, ground arith)
  Step-left (playback_fails at) on = (on, ground arith)
  Step-left (playback_tests at) on = (on, ground arith)
  Step-left (playback_works r at) on = ground arith
  Step-left (playback_closes at) on = (on, ground arith)
  Step-left (main_prints at) on = (on, ground arith)
  Step-left (main_joins at joined) on = (on, ground arith)
  Step-left (main_closes at joined) on = (on, ground arith)

  run-left :
      {s t : Threads} {trace : List (Who × List Event)}
      → Run sockfd cap_view play_view s trace t
      → s.stop_streaming ≡ true
      → (t.stop_streaming ≡ true) × (length trace + all_left t ≤ all_left s)
  run-left at_first on = (on, omega arith)
  run-left (and_then run st) on =
      let (still_on, less) = run-left run on in
      let (on_after, fewer) = Step-left st still_on in (on_after, omega arith)

  -- `main` waits for a thread whose loop is in a call.
  abbrev pub IsInCall : Threads → Type 0
  IsInCall t =
      ((t.main ≡ joining_capture) × (t.capture ≡ working))
      ⊎ ((t.main ≡ joining_playback) × (t.playback ≡ working))

  capture_goes_on :
      (t : Threads) (p : Position) → t.capture ≡ p → (p ≡ ended) ⊎ ((p ≡ working) ⊎ CanStep t)
  capture_goes_on t opening at = inr (inr (_, _, _, capture_opens at, tt))
  capture_goes_on t testing at = inr (inr (_, _, _, capture_tests at, tt))
  capture_goes_on t working at = inr (inl refl)
  capture_goes_on t closing at = inr (inr (_, _, _, capture_closes at, tt))
  capture_goes_on t ended at = inl refl

  playback_goes_on :
      (t : Threads) (p : Position) → t.playback ≡ p → (p ≡ ended) ⊎ ((p ≡ working) ⊎ CanStep t)
  playback_goes_on t opening at = inr (inr (_, _, _, playback_opens at, tt))
  playback_goes_on t testing at = inr (inr (_, _, _, playback_tests at, tt))
  playback_goes_on t working at = inr (inl refl)
  playback_goes_on t closing at = inr (inr (_, _, _, playback_closes at, tt))
  playback_goes_on t ended at = inl refl

  goes_on : (t : Threads) (m : Main) → t.main ≡ m → (t.main ≡ finished) ⊎ (CanStep t ⊎ IsInCall t)
  goes_on t starting at = inr (inl (_, _, _, main_prints at, tt))
  goes_on t joining_capture at = elim (capture_goes_on t t.capture refl) [
    | inl done ↦ inr (inl (_, _, _, main_joins at done, tt))
    | inr (inl busy) ↦ inr (inr (inl (at, busy)))
    | inr (inr more) ↦ inr (inl more)
  ]
  goes_on t joining_playback at = elim (playback_goes_on t t.playback refl) [
    | inl done ↦ inr (inl (_, _, _, main_closes at done, tt))
    | inr (inl busy) ↦ inr (inr (inr (at, busy)))
    | inr (inr more) ↦ inr (inl more)
  ]
  goes_on t finished at = inl at

  -- What remains once the flag is set: in a run from any state in which `stop_streaming` is set,
  -- wherever `main` and the two threads stand, there are at most nine steps and the flag stays set. At
  -- its end `main` has closed the sockets and returned; or some thread can go on without waiting for a
  -- call in the body of a loop; or else `main` is in `join`, and the thread that it joins is within
  -- such a body, where it stays for as long as a call like `recv` or `snd_pcm_readi` does not return.
  pub stopped-ends :
      {s t : Threads} {trace : List (Who × List Event)}
      → s.stop_streaming ≡ true
      → Run sockfd cap_view play_view s trace t
      → (length trace ≤ 9)
        × (t.stop_streaming ≡ true)
        × ((t.main ≡ finished) ⊎ (CanStep t ⊎ IsInCall t))
  stopped-ends {s} {t} on run =
      let (still_on, bound) = run-left run on in
      (left_at_most s (omega arith), still_on, goes_on t t.main refl)

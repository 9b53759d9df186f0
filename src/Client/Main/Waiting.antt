-- ===== src/Client/Main/Waiting.antt =====
-- How long `main` waits, and when it gives up.
use eng_project.Base.{
  ℕ, zero, suc, ◌+◌, ◌*◌, ◌<◌, ◌≤◌, ◌≡◌, ◌↔◌, refl, ◌∙◌, Bool, Bool-cases, inl, inr, true, false,
  List, [], ◌∷◌, ◌++◌, ℤ, pos, negsuc, is_minus_one, is_neg, if◌then◌else◌, arith,
}
use eng_project.Client.Event.{Event, close, sleep, cerr, cout, slept}
use eng_project.Client.Connect.{
  Attempt, no_socket, bad_address, refused, connected, Texts, Made, none_made, made, connect_server,
  retry_view, connect_view,
}
use eng_project.Client.Connect.Retries.{IsConnected, connect_server-succeeds}
use eng_project.Client.Capture
use eng_project.Client.Capture.{
  Reading, frames_read, recovered, broken, forward, handle_reading, capture_round, capture_loop,
  audio_cap,
}
use eng_project.Client.Playback
use eng_project.Client.Playback.{show_bytes, play_round, play_loop, play_audio}
use eng_project.Client.Main.{
  World, Streams, capture_view, playback_view, stream, close_unless_none, main,
}

slept-append : (es fs : List Event) → slept (es ++ fs) ≡ slept es + slept fs
unfolding slept
slept-append [] fs = omega arith
slept-append (sleep n ∷ es) fs = omega (arith, slept-append es fs)
slept-append (_ ∷ es) fs = slept-append es fs

connect_server-slept :
    (attempt : ℕ → Attempt) (delay_second retries : ℕ)
    → slept (connect_server attempt delay_second retries).events ≤ delay_second * retries
unfolding connect_server slept
connect_server-slept attempt delay_second zero = ground arith
connect_server-slept attempt delay_second (suc n) =
    ground (arith, connect_server-slept attempt delay_second n)

retry_view-slept :
    (texts : Texts) (connects : ℕ → Bool) (delay_second n : ℕ)
    → slept (retry_view texts connects delay_second n).events ≤ delay_second * n
unfolding retry_view slept
retry_view-slept texts connects delay_second zero = ground arith
retry_view-slept texts connects delay_second (suc n) =
    ground (arith, retry_view-slept texts connects delay_second n)

connect_view-slept :
    (texts : Texts) (socket : Made) (connects : ℕ → Bool) (delay_second n : ℕ)
    → slept (connect_view texts socket connects delay_second n).events ≤ delay_second * n
unfolding connect_view slept
connect_view-slept texts none_made connects delay_second n = omega arith
connect_view-slept texts (made fd) connects delay_second n = ground (
  arith,
  retry_view-slept texts connects delay_second n,
  slept-append (retry_view texts connects delay_second n).events (cerr texts.failed ∷ []),
)

module _ (sockfd view : ℤ) where
  reading-slept :
      (r : Capture.Round) (buffer : List ℕ) (reading : Reading)
      → slept (handle_reading sockfd view r buffer reading).events ≡ 0
  unfolding handle_reading forward slept
  reading-slept r buffer (frames_read n bytes) = ground arith
  reading-slept r buffer (recovered n) = ground arith
  reading-slept r buffer broken = refl

  loop-slept :
      (rounds : List Capture.Round) (buffer : List ℕ)
      → slept (capture_loop sockfd view rounds buffer).events ≡ 0
  unfolding capture_loop capture_round slept
  loop-slept [] buffer = refl
  loop-slept (r ∷ rs) buffer =
      let now = handle_reading sockfd view r buffer r.reading in
      elim (Bool-cases now.out) [
        | inl out ↦ rw out (reading-slept r buffer r.reading)
        | inr goes_on ↦ rw goes_on (
            slept-append now.events _
            ∙ omega (arith, reading-slept r buffer r.reading, loop-slept rs now.buffer))
      ]

  audio_cap-slept :
      (opened : Bool) (buffer : List ℕ) (rounds : List Capture.Round)
      → slept (audio_cap opened sockfd view buffer rounds).events ≡ 0
  unfolding audio_cap slept
  audio_cap-slept false buffer rounds = refl
  audio_cap-slept true buffer rounds =
      slept-append (capture_loop sockfd view rounds buffer).events _
      ∙ omega (arith, loop-slept rounds buffer)

round-slept : (view : ℤ) (r : Playback.Round) → slept (play_round view r).events ≡ 0
unfolding play_round show_bytes slept
round-slept view r = ground arith

playing-slept : (view : ℤ) (rounds : List Playback.Round) → slept (play_loop view rounds).events ≡ 0
unfolding play_loop slept
playing-slept view [] = refl
playing-slept view (r ∷ rs) = elim (Bool-cases (play_round view r).out) [
  | inl out ↦ rw out (round-slept view r)
  | inr goes_on ↦ rw goes_on (
      slept-append (play_round view r).events _
      ∙ omega (arith, round-slept view r, playing-slept view rs))
]

play_audio-slept :
    (opened : Bool) (view : ℤ) (rounds : List Playback.Round)
    → slept (play_audio opened view rounds).events ≡ 0
unfolding play_audio slept
play_audio-slept false view rounds = refl
play_audio-slept true view rounds =
    slept-append (play_loop view rounds).events _ ∙ omega (arith, playing-slept view rounds)

stream-slept : (fd cap playback : ℤ) (s : Streams) → slept (stream fd cap playback s) ≡ 0
unfolding stream slept
stream-slept fd cap playback s =
    let closing : List Event =
      close fd
      ∷ (close_unless_none cap
          ++ (close_unless_none playback ++ cout "Connection closed.\n" ∷ [])) in
    let quiet : slept closing ≡ 0 = ground arith in
    slept-append (audio_cap s.capture_opened fd cap s.buffer s.capture_rounds).events _
    ∙ omega (
      arith,
      audio_cap-slept fd cap s.capture_opened s.buffer s.capture_rounds,
      slept-append (play_audio s.playback_opened playback s.playback_rounds).events closing,
      play_audio-slept s.playback_opened playback s.playback_rounds,
      quiet,
    )

connect_server-fails :
    (attempt : ℕ → Attempt) (delay_second retries : ℕ)
    → ((k : ℕ) → k < retries → ¬ IsConnected (attempt k))
    → is_minus_one (connect_server attempt delay_second retries).result ≡ true
unfolding connect_server
connect_server-fails attempt delay_second zero h = refl
connect_server-fails attempt delay_second (suc n) h =
    step (attempt n) refl (connect_server-fails attempt delay_second n (λ k lt. h k (omega arith)))
  where
    step :
        (a : Attempt)
        → attempt n ≡ a
        → is_minus_one (connect_server attempt delay_second n).result ≡ true
        → is_minus_one (connect_server attempt delay_second (suc n)).result ≡ true
    step no_socket e rest = rw (e, connect_server) rest
    step (bad_address fd) e rest = rw (e, connect_server) rest
    step (refused fd) e rest = rw (e, connect_server) rest
    step (connected fd) e rest = absurd (h n (omega arith) (fd, e))

not_minus_one : (i : ℤ) → is_neg i ≡ false → is_minus_one i ≡ false
not_minus_one (pos n) e = refl
not_minus_one (negsuc n) e = cc

main-slept : (w : World) → slept (main w).events ≤ 30
unfolding main slept
main-slept w =
    let server = connect_server w.attempt 2 5 in
    let capture = connect_view capture_view w.capture_socket w.capture_connects 2 5 in
    let playback = connect_view playback_view w.playback_socket w.playback_connects 2 5 in
    let streaming = stream server.result capture.result playback.result w.streams in
    let bound = connect_server-slept w.attempt 2 5 in
    elim (Bool-cases (is_minus_one server.result)) [
      | inl none_left ↦
          rw none_left
            (omega (arith, bound, slept-append server.events (cerr "Server connect error.\n" ∷ [])))
      | inr served ↦ rw served (
          omega (
            arith,
            bound,
            connect_view-slept capture_view w.capture_socket w.capture_connects 2 5,
            connect_view-slept playback_view w.playback_socket w.playback_connects 2 5,
            slept-append server.events (capture.events ++ (playback.events ++ streaming)),
            slept-append capture.events (playback.events ++ streaming),
            slept-append playback.events streaming,
            stream-slept server.result capture.result playback.result w.streams,
          ))
    ]

code_of_result :
    (w : World)
    → (main w).code ≡ (if is_minus_one (connect_server w.attempt 2 5).result then 1 else 0)
unfolding main
code_of_result w = ground arith

-- `main` gives up in time: whatever the calls return, it sleeps at most 30 seconds in all, that is
-- the delay of 2 seconds for each of 5 rounds in three places; and it returns 1 exactly if in none
-- of the 5 rounds of `connect_server` the server is connected to.
pub main-gives_up :
    (w : World)
    → (slept (main w).events ≤ 30)
      × (((main w).code ≡ 1) ↔ ((k : ℕ) → k < 5 → ¬ IsConnected (w.attempt k)))
main-gives_up w = (
  main-slept w,
  (
    λ one k lt (fd, e).
        let (goes, within) = connect_server-succeeds w.attempt 2 5 k fd lt e in
        let served = not_minus_one (connect_server w.attempt 2 5).result goes in
        ground (arith, code_of_result w),
    λ none_connects.
        let none_left = connect_server-fails w.attempt 2 5 none_connects in
        ground (arith, code_of_result w),
  ),
)

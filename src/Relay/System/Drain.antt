-- ===== src/Relay/System/Drain.antt =====
-- How the server comes to rest: TCPS/Server/TCPS.cpp, when no client connects, none says anything more
-- and some have hung up.
use eng_project.Base.{
  ◌⊎◌, ◌↔◌, subst, Bool, true, false, Bool-cases, failed, ℕ, suc, ◌+◌, ◌<◌, ◌≤◌, ◌≡◌, inl, inr,
  refl, List, [], ◌∷◌, ◌==◌, arith,
}
use eng_project.Relay.Handler.{Event, Send}
use eng_project.Relay.System.{
  Texts, Thread, absent, receiving, leaving, erased, Accepting, waiting, accepted, listed, Server,
  IsHeld, Step, accept_fails, accept, relay, enlist, start_thread, hang_up, erase, close_client,
  Reach, later,
}
use eng_project.Relay.System.Roster.{
  thread_work, main_work, threads_work, threads_work-update, Roster, work, IsQuiet, quiet-works,
  Reach-Roster,
}
use eng_project.Relay.System.Ownership.{occurs, Reach-Inv}

-- A quiet step is possible.
abbrev pub CanGoOn : Texts → Send → (ℕ → Bool) → Server → Type 0
CanGoOn texts send_result gone s =
    (es : List Event) × (t : Server) × (st : Step texts send_result s es t) × IsQuiet gone st

-- A run of quiet steps, with their number.
pub data QuietRun (texts : Texts) (send_result : Send) (gone : ℕ → Bool) (s : Server)
    : ℕ → Server → Type 0 where
  at_once : QuietRun texts send_result gone s 0 s
  and_then :
      {k : ℕ} {t u : Server} {es : List Event}
      → QuietRun texts send_result gone s k t
      → (st : Step texts send_result t es u) → IsQuiet gone st
      → QuietRun texts send_result gone s (suc k) u

-- A thread receives from this client, or `main` is about to start one.
abbrev pub IsServed : Server → ℕ → Type 0
IsServed s fd = (s.thread fd ≡ receiving) ⊎ IsHeld s.main fd

-- What is left of `s`: the clients that were served and have not hung up are served, and no others.
pub record IsAtRest (gone : ℕ → Bool) (s t : Server) : Type 0 where
  pub waits : t.main ≡ waiting
  pub serves :
      (fd : ℕ)
      → gone fd ≡ false
      → IsServed s fd
      → (t.thread fd ≡ receiving) × (occurs fd t.clients ≡ 1)
  pub forgets :
      (fd : ℕ)
      → (gone fd ≡ true) ⊎ ¬ IsServed s fd
      → (t.thread fd ≡ absent) × (occurs fd t.clients ≡ 0)

-- A thread that has no work left is gone or waits in `recv`.
idle_thread :
    {t : Server} {fds : List ℕ} (gone : ℕ → Bool)
    → Roster t fds
    → work gone fds t ≡ 0
    → (fd : ℕ) → (t.thread fd ≡ absent) ⊎ ((t.thread fd ≡ receiving) × (gone fd ≡ false))
idle_thread {t} {fds} gone ro none_left fd =
    ground (arith, ro.lists fd, threads_work-update gone fds t.thread fd absent)

module _ {texts : Texts} {send_result : Send} (gone : ℕ → Bool) where
  thread_goes_on :
      (s : Server) (fd : ℕ) (t : Thread)
      → s.thread fd ≡ t
      → 0 < thread_work (gone fd) t
      → CanGoOn texts send_result gone s
  thread_goes_on s fd absent e h = absurd (omega arith)
  thread_goes_on s fd receiving e h = (_, _, hang_up fd failed e refl, ground arith)
  thread_goes_on s fd leaving e h = (_, _, erase fd e, tt)
  thread_goes_on s fd erased e h = (_, _, close_client fd e, tt)

  threads_go_on :
      (s : Server) (fds : List ℕ)
      → 0 < threads_work gone fds s.thread
      → CanGoOn texts send_result gone s
  unfolding threads_work
  threads_go_on s [] h = absurd (omega arith)
  threads_go_on s (fd ∷ fds) h = elim (Bool-cases (thread_work (gone fd) (s.thread fd) == 0)) [
    | inl done ↦ threads_go_on s fds (ground arith)
    | inr busy ↦ thread_goes_on s fd (s.thread fd) refl (ground arith)
  ]

  main_goes_on :
      (s : Server) (m : Accepting) (fds : List ℕ)
      → s.main ≡ m
      → 0 < main_work gone m + threads_work gone fds s.thread
      → CanGoOn texts send_result gone s
  main_goes_on s waiting fds e h = threads_go_on s fds (omega arith)
  main_goes_on s (accepted fd) fds e h = (_, _, enlist fd e, tt)
  main_goes_on s (listed fd) fds e h = (_, _, start_thread fd e, tt)

  -- What a quiet run leaves of the work.
  run-works :
      {s t : Server} {k : ℕ} {fds : List ℕ}
      → QuietRun texts send_result gone s k t
      → Reach texts send_result s
      → Roster s fds
      → Reach texts send_result t × Roster t fds × (work gone fds s ≡ k + work gone fds t)
  run-works at_once r ro = (r, ro, omega arith)
  run-works (and_then run st q) r ro =
      let (r', ro', done) = run-works run r ro in
      let (ro'', one) = quiet-works gone st q (Reach-Inv r') ro' in (later r' st, ro'', omega arith)

  -- A quiet step serves the same clients, but for those that have hung up.
  quiet-IsServed :
      {s t : Server} {es : List Event}
      → (st : Step texts send_result s es t) → IsQuiet gone st
      → (fd : ℕ) → gone fd ≡ false
      → IsServed s fd ↔ IsServed t fd
  quiet-IsServed (enlist new_fd w) q fd here = (λ h. ground (arith, h), λ h. ground (arith, h))
  quiet-IsServed (start_thread new_fd w) q fd here =
      (λ h. ground (arith, h), λ h. ground (arith, h))
  quiet-IsServed (hang_up g received at_recv no_bytes) q fd here =
      (λ h. ground (arith, h), λ h. ground (arith, h))
  quiet-IsServed (erase g e) q fd here = (λ h. ground (arith, h), λ h. ground (arith, h))
  quiet-IsServed (close_client g e) q fd here = (λ h. ground (arith, h), λ h. ground (arith, h))
  quiet-IsServed (accept_fails w) q fd here = absurd q
  quiet-IsServed (accept new_fd w free) q fd here = absurd q
  quiet-IsServed (relay g byte bytes e) q fd here = absurd q

  run-IsServed :
      {s t : Server} {k : ℕ}
      → QuietRun texts send_result gone s k t
      → (fd : ℕ) → gone fd ≡ false
      → IsServed s fd ↔ IsServed t fd
  run-IsServed at_once fd here = (λ h. h, λ h. h)
  run-IsServed (and_then run st q) fd here =
      let (to, from) = run-IsServed run fd here in
      let (on, back) = quiet-IsServed st q fd here in (λ h. on (to h), λ h. from (back h))

  no_work-IsAtRest :
      {s t : Server} {fds : List ℕ}
      → ((fd : ℕ) → gone fd ≡ false → IsServed s fd ↔ IsServed t fd)
      → Reach texts send_result t
      → Roster t fds
      → work gone fds t ≡ 0
      → IsAtRest gone s t
  no_work-IsAtRest {s} {t} same r ro none_left =
      let main_waits : t.main ≡ waiting = ground arith in
      record {
        waits = main_waits;
        serves = λ fd here served. elim ((same fd here).0 served) [
          | inl at_recv ↦ (at_recv, ground (arith, (Reach-Inv r).counted fd))
          | inr held ↦ absurd (subst (λ (m : Accepting). IsHeld m fd) main_waits held)
        ];
        forgets = λ fd out.
            let off : t.thread fd ≡ absent = elim (idle_thread gone ro none_left fd) [
              | inl off ↦ off
              | inr (at_recv, here) ↦ elim out [
                | inl left ↦ absurd (cc)
                | inr unserved ↦ absurd (unserved ((same fd here).1 (inl at_recv)))
              ]
            ] in
            (off, ground (arith, (Reach-Inv r).counted fd));
      }

  -- The server cleans up after the clients that hang up, and after no others: for every reachable
  -- state `s` there is a number `n` such that, if no client connects any more, none says anything
  -- more, `gone` tells which have hung up, and each `send` returns, then, however `main` and the
  -- threads take turns, no run from `s` has more than `n` steps, one with fewer can go on, and after
  -- `n` steps the server is at rest. Then `main` waits in `accept`; a client that was being served and
  -- has not hung up is in the list, once, and its thread waits in `recv`, for as long as the client is
  -- silent; every other thread has closed its socket and returned, and no other client is in the list.
  pub server-drains :
      {s : Server}
      → Reach texts send_result s
      → (n : ℕ) × ((k : ℕ) (t : Server)
          → QuietRun texts send_result gone s k t
          → (k ≤ n) × (k < n → CanGoOn texts send_result gone t) × (k ≡ n → IsAtRest gone s t))
  server-drains {s} r =
      let (fds, ro) = Reach-Roster r in
      (
        work gone fds s,
        λ k t run.
            let (r', ro', done) = run-works run r ro in
            (
              omega arith,
              λ lt. main_goes_on t t.main fds refl (omega arith),
              λ e. no_work-IsAtRest (run-IsServed run) r' ro' (omega arith),
            ),
      )

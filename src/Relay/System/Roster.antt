-- ===== src/Relay/System/Roster.antt =====
-- The work that the relay server of TCPS/Server/TCPS.cpp has left when no client connects, none says
-- anything more and some have hung up: what `main` and the threads have still to do.
use eng_project.Base.{
  Bool, true, if◌then◌else◌, Bool-cases, ℕ, suc, ◌+◌, ◌≤◌, ◌≡◌, ◌≢◌, inl, inr, refl, List, [], ◌∷◌,
  ◌==◌, arith,
}
use eng_project.Relay.Handler.{Event, Send}
use eng_project.Relay.System.{
  Texts, Thread, absent, receiving, leaving, erased, Accepting, waiting, accepted, listed, Server,
  IsHeld, Step, update, accept_fails, accept, enlist, start_thread, relay, hang_up, erase,
  close_client, Reach, start, later,
}
use eng_project.Relay.System.Ownership.{occurs, Inv, Reach-Inv}

-- The steps that remain to a thread, where it is known whether its client is gone. If it is not, the
-- thread stays in `recv`.
abbrev pub thread_work : Bool → Thread → ℕ
thread_work gone absent = 0
thread_work gone receiving = if gone then 3 else 0
thread_work gone leaving = 2
thread_work gone erased = 1

-- The steps that remain to `main` before it waits, with those of the thread that it will start.
abbrev pub main_work : (ℕ → Bool) → Accepting → ℕ
main_work gone waiting = 0
main_work gone (accepted new_fd) = 2 + thread_work (gone new_fd) receiving
main_work gone (listed new_fd) = 1 + thread_work (gone new_fd) receiving

unfoldable pub threads_work : (ℕ → Bool) → List ℕ → (ℕ → Thread) → ℕ
threads_work gone [] f = 0
threads_work gone (fd ∷ fds) f = thread_work (gone fd) (f fd) + threads_work gone fds f

-- A thread that is not in the list does not count.
threads_work-other :
    (gone : ℕ → Bool) (fds : List ℕ) (f : ℕ → Thread) (fd : ℕ) (t : Thread)
    → occurs fd fds ≡ 0
    → threads_work gone fds (update f fd t) ≡ threads_work gone fds f
unfolding threads_work occurs
threads_work-other gone [] f fd t out = refl
threads_work-other gone (g ∷ fds) f fd t out = ground (arith, threads_work-other gone fds f fd t)

pub threads_work-update :
    (gone : ℕ → Bool) (fds : List ℕ) (f : ℕ → Thread) (fd : ℕ) (t : Thread)
    → occurs fd fds ≡ 1
    → threads_work gone fds (update f fd t) + thread_work (gone fd) (f fd)
      ≡ threads_work gone fds f + thread_work (gone fd) t
unfolding threads_work occurs
threads_work-update gone [] f fd t once = absurd (omega arith)
threads_work-update gone (g ∷ fds) f fd t once =
    ground (arith, threads_work-other gone fds f fd t, threads_work-update gone fds f fd t)

-- A list of descriptors that holds each thread, and the one that `main` is about to start, once.
pub record Roster (s : Server) (fds : List ℕ) : Type 0 where
  pub alone : (fd : ℕ) → occurs fd fds ≤ 1
  pub lists : (fd : ℕ) → s.thread fd ≢ absent → occurs fd fds ≡ 1
  pub awaits : (fd : ℕ) → IsHeld s.main fd → occurs fd fds ≡ 1

-- `accept` returns a descriptor: it is listed if it was not.
enrol :
    {s : Server} (new_fd : ℕ) (fds : List ℕ)
    → Roster s fds
    → (gds : List ℕ) × Roster (record s { main = accepted new_fd }) gds
unfolding occurs
enrol {s} new_fd fds r = elim (Bool-cases (occurs new_fd fds == 0)) [
  | inl new ↦ (
    new_fd ∷ fds,
    record {
      alone = λ fd. ground (arith, r.alone fd);
      lists = λ fd h. ground (arith, r.lists fd, r.lists new_fd);
      awaits = λ fd h. ground arith;
    },
  )
  | inr old ↦ (
    fds,
    record { alone = r.alone; lists = r.lists; awaits = λ fd h. ground (arith, r.alone new_fd) },
  )
]

abbrev pub work : (ℕ → Bool) → List ℕ → Server → ℕ
work gone fds s = main_work gone s.main + threads_work gone fds s.thread

-- What a step is if no client connects, none says anything, and only these have hung up.
abbrev pub IsQuiet :
    {texts : Texts} {send_result : Send} {s t : Server} {es : List Event} (gone : ℕ → Bool)
    → Step texts send_result s es t
    → Type 0
IsQuiet _ (accept_fails _) = ⊥
IsQuiet _ (accept _ _ _) = ⊥
IsQuiet _ (enlist _ _) = Unit
IsQuiet _ (start_thread _ _) = Unit
IsQuiet _ (relay _ _ _ _) = ⊥
IsQuiet gone (hang_up fd _ _ _) = gone fd ≡ true
IsQuiet _ (erase _ _) = Unit
IsQuiet _ (close_client _ _) = Unit

module _ {texts : Texts} {send_result : Send} where
  -- Each quiet step does one unit of the work.
  pub quiet-works :
      {s t : Server} {es : List Event} {fds : List ℕ} (gone : ℕ → Bool)
      → (st : Step texts send_result s es t) → IsQuiet gone st
      → Inv s
      → Roster s fds
      → Roster t fds × (work gone fds s ≡ suc (work gone fds t))
  quiet-works gone (enlist new_fd w) q inv r = (
    record { alone = r.alone; lists = r.lists; awaits = λ fd h. ground (arith, r.awaits fd) },
    ground arith,
  )
  quiet-works {s} {fds = fds} gone (start_thread new_fd w) q inv r = (
    record {
      alone = r.alone;
      lists = λ fd h. ground (arith, r.lists fd, r.awaits fd);
      awaits = λ fd h. elim h [ ];
    },
    ground (
      arith,
      inv.fresh new_fd,
      r.awaits new_fd,
      threads_work-update gone fds s.thread new_fd receiving,
    ),
  )
  quiet-works {s} {fds = fds} gone (hang_up fd received at_recv no_bytes) q inv r = (
    record {
      alone = r.alone;
      lists = λ g h. ground (arith, r.lists g, r.lists fd);
      awaits = r.awaits;
    },
    ground (arith, r.lists fd, threads_work-update gone fds s.thread fd leaving),
  )
  quiet-works {s} {fds = fds} gone (erase fd e) q inv r = (
    record {
      alone = r.alone;
      lists = λ g h. ground (arith, r.lists g, r.lists fd);
      awaits = r.awaits;
    },
    ground (arith, r.lists fd, threads_work-update gone fds s.thread fd erased),
  )
  quiet-works {s} {fds = fds} gone (close_client fd e) q inv r = (
    record { alone = r.alone; lists = λ g h. ground (arith, r.lists g); awaits = r.awaits },
    ground (arith, r.lists fd, threads_work-update gone fds s.thread fd absent),
  )
  quiet-works gone (accept_fails w) q inv r = absurd q
  quiet-works gone (accept new_fd w free) q inv r = absurd q
  quiet-works gone (relay fd byte bytes e) q inv r = absurd q

  keeps_Roster :
      {s t : Server} {es : List Event}
      → (st : Step texts send_result s es t) → IsQuiet (λ _. true) st
      → Reach texts send_result s
      → (fds : List ℕ) × Roster s fds
      → (fds : List ℕ) × Roster t fds
  keeps_Roster st q r (fds, listed_once) =
      (fds, (quiet-works (λ _. true) st q (Reach-Inv r) listed_once).0)

  -- Each reachable state has a roster.
  pub Reach-Roster : {s : Server} → Reach texts send_result s → (fds : List ℕ) × Roster s fds
  unfolding occurs
  Reach-Roster start = (
    [],
    record {
      alone = λ fd. omega arith;
      lists = λ fd h. absurd (h refl);
      awaits = λ fd h. elim h [ ];
    },
  )
  Reach-Roster (later r (accept_fails w)) = Reach-Roster r
  Reach-Roster (later r (accept new_fd w free)) = enrol new_fd (Reach-Roster r).0 (Reach-Roster r).1
  Reach-Roster (later r (relay fd byte bytes e)) = Reach-Roster r
  Reach-Roster (later r (enlist fd w)) = keeps_Roster (enlist fd w) tt r (Reach-Roster r)
  Reach-Roster (later r (start_thread fd w)) =
      keeps_Roster (start_thread fd w) tt r (Reach-Roster r)
  Reach-Roster (later r (hang_up fd received e n)) =
      keeps_Roster (hang_up fd received e n) refl r (Reach-Roster r)
  Reach-Roster (later r (erase fd e)) = keeps_Roster (erase fd e) tt r (Reach-Roster r)
  Reach-Roster (later r (close_client fd e)) =
      keeps_Roster (close_client fd e) tt r (Reach-Roster r)

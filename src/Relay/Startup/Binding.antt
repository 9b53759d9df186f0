-- ===== src/Relay/Startup/Binding.antt =====
-- Which address the relay server takes, and which sockets are open when it has.
use eng_project.Base.{
  ℕ, ◌≡◌, refl, ap, List, [], ◌∷◌, ◌++◌, ℤ, is_minus_one, false, some, ==_refl, All, append_assoc,
  ◌∙◌, sym, append-nil,
}
use eng_project.Relay.Startup.{
  Event, socket, close, freeaddrinfo, perror, cerr, cout, Candidate, no_socket, no_option,
  not_bound, bound, Start, ended, going, after, bind_socket, listen_socket, start, open_after,
  IsSkipped,
}

after-append : (es fs : List Event) (s : Start) → after (es ++ fs) s ≡ after es (after fs s)
after-append es fs (ended code gs) = ap (ended code) (append_assoc es fs gs)
after-append es fs (going sockfd gs) = ap (going sockfd) (append_assoc es fs gs)

-- Addresses that are passed over leave no socket behind.
skipped-leave_none :
    (skipped p : List Candidate)
    → All IsSkipped skipped
    → (es : List Event) × (bind_socket (skipped ++ p) ≡ after es (bind_socket p))
      × ((fds : List ℕ) (fs : List Event) → open_after fds (es ++ fs) ≡ open_after fds fs)
unfolding bind_socket open_after
skipped-leave_none [] p h = ([], after-nil (bind_socket p), λ fds fs. refl)
  where
    after-nil : (s : Start) → s ≡ after [] s
    after-nil (ended code es) = refl
    after-nil (going sockfd es) = refl
skipped-leave_none (no_socket ∷ skipped) p h =
    let later = skipped-leave_none skipped p h.1 in
    let now : List Event = perror "socket error" ∷ [] in
    (
      now ++ later.0,
      ap (after now) later.1 ∙ sym (after-append now later.0 (bind_socket p)),
      later.2,
    )
skipped-leave_none (no_option sockfd ∷ skipped) p h = absurd h.0
skipped-leave_none (bound sockfd ∷ skipped) p h = absurd h.0
skipped-leave_none (not_bound sockfd ∷ skipped) p h =
    let later = skipped-leave_none skipped p h.1 in
    let now : List Event = socket sockfd ∷ close sockfd ∷ perror "socket bind error" ∷ [] in
    (
      now ++ later.0,
      ap (after now) later.1 ∙ sym (after-append now later.0 (bind_socket p)),
      λ fds fs. rw (==_refl sockfd, open_after) (later.2 fds fs),
    )

-- The server listens on the first address that works: if `socket` or `bind` fails for the addresses
-- before it, and `listen` and `sigaction` do not fail, `main` goes on with the socket bound to that
-- address, whatever follows it in the list, and no other socket is open.
pub start-takes_first :
    (skipped p : List Candidate) (sockfd : ℕ) (listened installed : ℤ)
    → All IsSkipped skipped
    → is_minus_one listened ≡ false
    → is_minus_one installed ≡ false
    → (es : List Event) × (start (some (skipped ++ bound sockfd ∷ p)) listened installed
        ≡ going sockfd es)
      × (open_after [] es ≡ sockfd ∷ [])
unfolding start listen_socket bind_socket open_after
start-takes_first skipped p sockfd listened installed h l i =
    let s = skipped-leave_none skipped (bound sockfd ∷ p) h in
    let last : List Event = freeaddrinfo ∷ cout "waiting for connection ...\n" ∷ [] in
    (
      (s.0 ++ socket sockfd ∷ []) ++ last,
      rw (s.1, l, i) refl,
      ap (open_after []) (append_assoc s.0 (socket sockfd ∷ []) last)
          ∙ s.2 [] (socket sockfd ∷ last),
    )

-- If `socket` or `bind` fails for each address, `main` returns 2 and no socket is open.
start-gives_up :
    (servinfo : List Candidate) (listened installed : ℤ)
    → All IsSkipped servinfo
    → (es : List Event) × (start (some servinfo) listened installed ≡ ended 2 es)
      × (open_after [] es ≡ [])
unfolding start listen_socket bind_socket open_after
start-gives_up servinfo listened installed h =
    let s = skipped-leave_none servinfo [] h in
    (
      s.0 ++ cerr "Failed to bind.\n " ∷ [],
      ap (λ (c : List Candidate). listen_socket listened installed (bind_socket c))
            (sym (append-nil servinfo))
          ∙ ap (listen_socket listened installed) s.1,
      s.2 [] (cerr "Failed to bind.\n " ∷ []),
    )

-- ===== src/Relay/Startup.antt =====
-- TCPS/Server/TCPS.cpp, `main` up to the loop that accepts: an address is found, a socket is bound
-- to it, and the server listens. What the system calls do is an input.
pub mod Binding
use Prim.Native.String.{String}
use eng_project.Base.{
  ℕ, suc, ◌≡◌, refl, List, [], ◌∷◌, ◌++◌, ℤ, pos, is_minus_one, Option, none, some, ◌==◌, ==_refl,
  if◌then◌else◌, All,
}

pub data Event : Type 0 where
  socket : ℕ → Event
  close : ℕ → Event
  freeaddrinfo : Event
  perror : String → Event
  cerr : String → Event
  cout : String → Event

-- How far `socket`, `setsockopt` and `bind` get with one address of `servinfo`.
pub data Candidate : Type 0 where
  no_socket : Candidate
  no_option : (sockfd : ℕ) → Candidate
  not_bound : (sockfd : ℕ) → Candidate
  bound : (sockfd : ℕ) → Candidate

-- How `main` gets on: it ends with an exit code, or goes on with `sockfd`.
pub data Start : Type 0 where
  ended : (code : ℕ) → List Event → Start
  going : (sockfd : ℕ) → List Event → Start

abbrev pub after : List Event → Start → Start
after es (ended code fs) = ended code (es ++ fs)
after es (going sockfd fs) = going sockfd (es ++ fs)

-- `for (p = servinfo; p != NULL; p = p->ai_next)`, and the test `p == NULL` after it.
unfoldable pub bind_socket : List Candidate → Start
bind_socket [] = ended 2 (cerr "Failed to bind.\n " ∷ [])
bind_socket (no_socket ∷ p) = after (perror "socket error" ∷ []) (bind_socket p)
bind_socket (no_option sockfd ∷ p) = ended 1 (socket sockfd ∷ perror "setsocketopt" ∷ [])
bind_socket (not_bound sockfd ∷ p) =
    after (socket sockfd ∷ close sockfd ∷ perror "socket bind error" ∷ []) (bind_socket p)
bind_socket (bound sockfd ∷ p) = going sockfd (socket sockfd ∷ [])

-- `listen` and `sigaction`, by what they return.
unfoldable pub listen_socket : (listened installed : ℤ) → Start → Start
listen_socket listened installed (ended code es) = ended code es
listen_socket listened installed (going sockfd es) =
    if is_minus_one listened
    then ended 1 (es ++ freeaddrinfo ∷ perror "listen error" ∷ [])
    else (if is_minus_one installed
        then ended 1
            (es ++ freeaddrinfo ∷ cout "waiting for connection ...\n" ∷ perror "sigaction" ∷ [])
        else going sockfd (es ++ freeaddrinfo ∷ cout "waiting for connection ...\n" ∷ []))

-- `main` up to `while (true)`; `none` if `getaddrinfo` fails.
unfoldable pub start : Option (List Candidate) → (listened installed : ℤ) → Start
unfolding bind_socket listen_socket
start none listened installed = ended 1 (cerr "Address info error." ∷ [])
start (some servinfo) listened installed = listen_socket listened installed (bind_socket servinfo)

abbrev pub shut : ℕ → List ℕ → List ℕ
shut fd [] = []
shut fd (c ∷ fds) = let rest = c ∷ shut fd fds in if c == fd then fds else rest

-- The descriptors that are open after some events, the last one made first.
unfoldable pub open_after : List ℕ → List Event → List ℕ
open_after fds [] = fds
open_after fds (socket fd ∷ es) = open_after (fd ∷ fds) es
open_after fds (close fd ∷ es) = open_after (shut fd fds) es
open_after fds (_ ∷ es) = open_after fds es

-- An address that the loop passes over.
abbrev pub IsSkipped : Candidate → Type 0
IsSkipped no_socket = Unit
IsSkipped (no_option sockfd) = ⊥
IsSkipped (not_bound sockfd) = Unit
IsSkipped (bound sockfd) = ⊥

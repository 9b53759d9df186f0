-- ===== src/Relay/System.antt =====
-- TCPS/Server/TCPS.cpp, the accepting loop of `main` and the threads that it starts: any number of
-- clients, interleaved in any order. The lock `client_m` makes each access to `clients` one step.
-- TCPMeasure/Audio/TCPLBSr.cpp has the same loop with other texts.
pub mod Ownership
pub mod Delivery
pub mod Drain
pub mod Roster
pub mod Room
use Prim.Native.String.{String}
use eng_project.Base.{
  ℕ, ◌≡◌, ◌≢◌, Bool, true, false, List, [], ◌∷◌, ◌++◌, is_pos, ◌==◌, if◌then◌else◌, Received,
  failed, got, count,
}
use eng_project.Relay.Handler.{Event, Send, perror, cout, close, broadcast, remove_client, farewell}

-- Where the thread of a client stands. A descriptor whose thread is `absent` has no thread.
pub data Thread : Type 0 where
  absent : Thread
  receiving : Thread  -- before `recv`
  leaving : Thread  -- after the loop, before the client is taken off the list
  erased : Thread  -- before `close`

-- Where `main` stands in its loop.
pub data Accepting : Type 0 where
  waiting : Accepting  -- before `accept`
  accepted : (new_fd : ℕ) → Accepting  -- before `push_back`
  listed : (new_fd : ℕ) → Accepting  -- before the thread is started

pub record Server : Type 0 where
  pub clients : List ℕ
  pub main : Accepting
  pub thread : ℕ → Thread

abbrev pub update : (ℕ → Thread) → ℕ → Thread → ℕ → Thread
update f i t j = if i == j then t else f j

-- The descriptors that `main` or a thread holds open.
abbrev pub IsHeld : Accepting → ℕ → Type 0
IsHeld waiting fd = ⊥
IsHeld (accepted new_fd) fd = new_fd ≡ fd
IsHeld (listed new_fd) fd = new_fd ≡ fd

-- What `main` prints, which differs between the servers that have this loop.
pub record Texts : Type 0 where
  pub accept_fails : String
  pub got_connection : String

-- One step of `main` or of a thread, and what it does. `accept` returns a descriptor that is not
-- open: this is what its documentation promises.
pub data Step (texts : Texts) (send_result : Send) (s : Server) : List Event → Server → Type 0 where
  accept_fails : s.main ≡ waiting → Step texts send_result s (perror texts.accept_fails ∷ []) s
  accept :
      (new_fd : ℕ)
      → s.main ≡ waiting
      → s.thread new_fd ≡ absent
      → Step texts send_result s
          (cout texts.got_connection ∷ [])
          (record s { main = accepted new_fd })
  enlist :
      (new_fd : ℕ)
      → s.main ≡ accepted new_fd
      → Step texts send_result s []
          (record s { clients = s.clients ++ new_fd ∷ []; main = listed new_fd })
  start_thread :
      (new_fd : ℕ)
      → s.main ≡ listed new_fd
      → Step texts send_result s []
          (record s { main = waiting; thread = update s.thread new_fd receiving })
  relay :
      (fd byte : ℕ) (bytes : List ℕ)
      → s.thread fd ≡ receiving
      → Step texts send_result s (broadcast send_result (byte ∷ bytes) fd s.clients) s
  hang_up :
      (fd : ℕ) (r : Received)
      → s.thread fd ≡ receiving
      → is_pos (count r) ≡ false
      → Step texts send_result s
          (farewell (count r))
          (record s { thread = update s.thread fd leaving })
  erase :
      (fd : ℕ)
      → s.thread fd ≡ leaving
      → Step texts send_result s []
          (record s { clients = remove_client fd s.clients; thread = update s.thread fd erased })
  close_client :
      (fd : ℕ)
      → s.thread fd ≡ erased
      → Step texts send_result s (close fd ∷ []) (record s { thread = update s.thread fd absent })

-- The server before the first connection.
abbrev pub init : Server
init = record { clients = []; main = waiting; thread = λ _. absent }

pub data Reach (texts : Texts) (send_result : Send) : Server → Type 0 where
  start : Reach texts send_result init
  later :
      {s t : Server} {es : List Event}
      → Reach texts send_result s
      → Step texts send_result s es t
      → Reach texts send_result t

-- TCPS.cpp
abbrev pub relay_texts : Texts
relay_texts = record { accept_fails = "accept"; got_connection = "Server: got connection from " }

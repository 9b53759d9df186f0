-- ===== src/Relay/Handler.antt =====
-- TCPS/Server/TCPS.cpp, `handle_c` and `sigchld_handler`: the thread of one client, and the handler
-- of a signal. A descriptor is a number; what `send` returns is a parameter.
pub mod Laws
use Prim.Native.String.{String}
use eng_project.Base.{
  ℕ, Bool, true, false, not, List, [], ◌∷◌, ◌++◌, ℤ, is_minus_one, is_pos, is_zero, ◌==◌,
  if◌then◌else◌, Received, count, payload,
}

pub data Event : Type 0 where
  send : (socket : ℕ) → List ℕ → Event
  close : (socket : ℕ) → Event
  perror : String → Event
  cout : String → Event

-- What `send(socket, buffer, byte_num, 0)` returns.
abbrev pub Send : Type 0
Send = ℕ → List ℕ → ℤ

abbrev pub check_send : ℤ → List Event
check_send result = if is_minus_one result then perror "send error" ∷ [] else []

-- `for (int others_addr : clients) if (others_addr != client_socket) …`
unfoldable pub broadcast : Send → List ℕ → ℕ → List ℕ → List Event
broadcast send_result bytes client_socket [] = []
broadcast send_result bytes client_socket (others_addr ∷ clients) =
    (if not (others_addr == client_socket)
      then send others_addr bytes ∷ check_send (send_result others_addr bytes)
      else [])
    ++ broadcast send_result bytes client_socket clients

-- `clients.erase(std::remove(clients.begin(), clients.end(), client_socket), clients.end())`
unfoldable pub remove_client : ℕ → List ℕ → List ℕ
remove_client client_socket [] = []
remove_client client_socket (c ∷ clients) =
    let rest = remove_client client_socket clients in if c == client_socket then rest else c ∷ rest

-- What the thread prints when `recv` has not returned a positive number.
unfoldable pub farewell : ℤ → List Event
farewell byte_num =
    if is_zero byte_num
    then cout "Client disconnected.\n" ∷ []
    else if is_minus_one byte_num
    then perror "recv error" ∷ []
    else []

-- What one `recv` did, and the clients when the lock is taken after it.
pub record Turn : Type 0 where
  pub received : Received
  pub clients : List ℕ

-- What `handle_c` has done when it returns: its events, and the clients that it leaves. `none` if
-- the thread is still waiting in `recv` after all these turns.
pub data Handled : Type 0 where
  waiting : List Event → Handled
  returned : List Event → List ℕ → Handled

abbrev pub after_events : List Event → Handled → Handled
after_events es (waiting fs) = waiting (es ++ fs)
after_events es (returned fs clients) = returned (es ++ fs) clients

unfoldable pub handle_c : Send → ℕ → List Turn → Handled
unfolding broadcast remove_client farewell
handle_c send_result client_socket [] = waiting []
handle_c send_result client_socket (t ∷ ts) = elim (is_pos (count t.received)) [
  | true ↦
      after_events (broadcast send_result (payload t.received) client_socket t.clients)
        (handle_c send_result client_socket ts)
  | false ↦
      returned (farewell (count t.received) ++ close client_socket ∷ [])
        (remove_client client_socket t.clients)
]

-- What `waitpid(-1, NULL, WNOHANG)` returned, and the `errno` that it left.
pub record Waited : Type 0 where
  pub result : ℤ
  pub errno_after : ℕ

-- `while (waitpid(…) > 0) { errno = saved_errno; }`: the `errno` that the handler leaves behind.
reap : ℕ → ℕ → List Waited → ℕ
reap saved_errno errno [] = errno
reap saved_errno errno (w ∷ ws) = elim (is_pos w.result) [
  | true ↦ reap saved_errno saved_errno ws
  | false ↦ w.errno_after
]

unfoldable pub sigchld_handler : ℕ → List Waited → ℕ
unfolding reap
sigchld_handler errno calls = reap errno errno calls

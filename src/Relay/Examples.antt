-- ===== src/Relay/Examples.antt =====
-- Runs of the relay server, and its theorems at concrete inputs.
use eng_project.Base.{
  Bool, ℕ, ◌<◌, ◌≤◌, ◌≡◌, refl, true, false, List, [], ◌∷◌, ◌++◌, ◌==◌, pos, negsuc, failed, got,
  some,
}
use eng_project.Relay.Handler.{Event, Send, cout, close, broadcast, returned, handle_c}
use eng_project.Relay.Handler.Laws.{handle_c-session}
use eng_project.Relay.System.{
  relay_texts, Server, absent, receiving, waiting, update, accept, enlist, start_thread, Reach,
  later,
}
use eng_project.Relay.System.Drain.{QuietRun, CanGoOn, IsAtRest, server-drains}
use eng_project.Relay.Startup
use eng_project.Relay.Startup.{no_socket, not_bound, bound, going, ended, start, open_after}
use eng_project.Relay.Startup.Binding.{start-takes_first}
use eng_project.Relay.System.Ownership.{occurs}
use eng_project.Relay.System.Delivery.{messages}

-- `send` succeeds on 7 and fails elsewhere.
abbrev results : Send
results fd bytes = elim (fd == 7) [ true ↦ pos 1 | false ↦ negsuc 0 ]

abbrev two_clients : Server
two_clients = record {
  clients = 7 ∷ 8 ∷ [];
  main = waiting;
  thread = update (update (λ _. absent) 7 receiving) 8 receiving;
}

two_clients-Reach : Reach relay_texts results two_clients
two_clients-Reach =
    later
      (later
        (later
          (later (later (later Reach.start (accept 7 refl refl)) (enlist 7 refl))
            (start_thread 7 refl))
          (accept 8 refl refl))
        (enlist 8 refl))
      (start_thread 8 refl)

-- The first client comes in, is served, and says something.
abbrev talking : List (List Event)
talking =
    broadcast results (1 ∷ []) 7 (7 ∷ [])
    ∷ []
    ∷ []
    ∷ (cout "Server: got connection from " ∷ [])
    ∷ []

-- The second client hangs up, the first stays silent.
abbrev second_gone : ℕ → Bool
second_gone fd = fd == 8

server-drains_example :
    (n : ℕ) × ((k : ℕ) (t : Server)
      → QuietRun relay_texts results second_gone two_clients k t
      → (k ≤ n)
        × (k < n → CanGoOn relay_texts results second_gone t)
        × (k ≡ n → IsAtRest second_gone two_clients t))
server-drains_example = server-drains second_gone two_clients-Reach

once : occurs 8 (7 ∷ 8 ∷ []) ≡ 1
unfolding occurs
once = refl

handle_c-session_example :
    (es : List Event) × (clients : List ℕ) × (handle_c results 7 (
        record { received = got (1 ∷ []); clients = 7 ∷ 8 ∷ [] }
        ∷ record { received = got (2 ∷ 3 ∷ []); clients = 7 ∷ 8 ∷ [] }
        ∷ record { received = failed; clients = 7 ∷ 8 ∷ [] }
        ∷ [])
      ≡ returned (es ++ close 7 ∷ []) clients)
    × (messages 8 es ≡ (1 ∷ []) ∷ (2 ∷ 3 ∷ []) ∷ [])
    × (occurs 7 clients ≡ 0)
    × (occurs 8 clients ≡ occurs 8 (7 ∷ 8 ∷ []))
handle_c-session_example =
    handle_c-session results 7 8
      (record { received = got (1 ∷ []); clients = 7 ∷ 8 ∷ [] }
        ∷ record { received = got (2 ∷ 3 ∷ []); clients = 7 ∷ 8 ∷ [] }
        ∷ [])
      (record { received = failed; clients = 7 ∷ 8 ∷ [] }) [] (refl, (refl, tt)) refl refl
      (once, (once, tt))

start-takes_first_example :
    (es : List Startup.Event) × (start
        (some (no_socket ∷ not_bound 3 ∷ bound 4 ∷ bound 5 ∷ []))
        (pos 0)
        (pos 0)
      ≡ going 4 es)
    × (open_after [] es ≡ 4 ∷ [])
start-takes_first_example =
    start-takes_first (no_socket ∷ not_bound 3 ∷ []) (bound 5 ∷ []) 4 (pos 0) (pos 0) (tt, (tt, tt))
      refl refl

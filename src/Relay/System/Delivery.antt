-- ===== src/Relay/System/Delivery.antt =====
-- To whom a message goes, and that no descriptor is used after it has been closed.
use eng_project.Base.{
  ℕ, ◌≡◌, ◌≢◌, ◌⊎◌, refl, ◌∙◌, not, List, [], ◌∷◌, ◌++◌, ◌==◌, if◌then◌else◌, arith, replicate, ℤ,
}
use eng_project.Relay.Handler.{
  Event, Send, send, close, perror, cout, check_send, broadcast, farewell,
}
use eng_project.Relay.System.{Texts, absent, Server, IsHeld, Reach}
use eng_project.Relay.System.Ownership.{occurs, served, Reach-Inv}

-- What is sent on a descriptor, in order.
unfoldable pub messages : ℕ → List Event → List (List ℕ)
messages fd [] = []
messages fd (send g bytes ∷ es) = if g == fd then bytes ∷ messages fd es else messages fd es
messages fd (close _ ∷ es) = messages fd es
messages fd (perror _ ∷ es) = messages fd es
messages fd (cout _ ∷ es) = messages fd es

pub messages-append :
    (fd : ℕ) (es fs : List Event) → messages fd (es ++ fs) ≡ messages fd es ++ messages fd fs
unfolding messages
messages-append fd [] fs = refl
messages-append fd (send g bytes ∷ es) fs = ground (arith, messages-append fd es fs)
messages-append fd (close _ ∷ es) fs = messages-append fd es fs
messages-append fd (perror _ ∷ es) fs = messages-append fd es fs
messages-append fd (cout _ ∷ es) fs = messages-append fd es fs

pub messages-broadcast :
    (send_result : Send) (bytes : List ℕ) (fd g : ℕ) (clients : List ℕ)
    → messages g (broadcast send_result bytes fd clients)
      ≡ (if fd == g then [] else replicate (occurs g clients) bytes)
unfolding messages broadcast occurs
messages-broadcast send_result bytes fd g [] = ground arith
messages-broadcast send_result bytes fd g (c ∷ clients) =
    messages-append g
      (if not (c == fd) then send c bytes ∷ check_send (send_result c bytes) else []) _
    ∙ ground (arith, messages-broadcast send_result bytes fd g clients)

pub messages-farewell : (fd : ℕ) (r : ℤ) → messages fd (farewell r) ≡ []
unfolding messages farewell
messages-farewell fd r = ground arith

-- A message reaches every other client once, and no one else: in every reachable state of the server,
-- a broadcast for the client on `fd` sends its bytes once on each other descriptor of which the
-- connection is being served at that moment, whatever `send` returns, and nothing on any other
-- descriptor, `fd` included.
pub relay-exact :
    {texts : Texts} {send_result : Send} {s : Server}
    → Reach texts send_result s
    → (fd g : ℕ) (bytes : List ℕ)
    → messages g (broadcast send_result bytes fd s.clients)
      ≡ (if fd == g then [] else replicate (served s.main (s.thread g) g) bytes)
relay-exact {send_result} {s} r fd g bytes =
    messages-broadcast send_result bytes fd g s.clients ∙ ground (arith, (Reach-Inv r).counted g)

-- A descriptor that `accept` has returned and that has not been closed since.
abbrev pub IsOpen : Server → ℕ → Type 0
IsOpen s fd = (s.thread fd ≢ absent) ⊎ IsHeld s.main fd

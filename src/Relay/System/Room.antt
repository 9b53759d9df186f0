-- ===== src/Relay/System/Room.antt =====
-- What the relay promises, without descriptors' threads, lists and locks: a room of members.
use eng_project.Base.{ℕ, ◌≡◌, Bool, true, false, not, List, [], ◌∷◌, ◌==◌, if◌then◌else◌}
use eng_project.Relay.Handler.{Event, Send}
use eng_project.Relay.System.{Texts, Server, Step, init}
use eng_project.Relay.System.Ownership.{served}
use eng_project.Relay.System.Delivery.{messages}

-- Who is in the room.
abbrev pub Room : Type 0
Room = ℕ → Bool

-- What everyone is sent in one step.
abbrev pub Delivery : Type 0
Delivery = ℕ → List (List ℕ)

abbrev pub IsSilent : Delivery → Type 0
IsSilent d = (g : ℕ) → d g ≡ []

-- The room from `m` to `n`: nothing happens, someone comes in or goes out, or a member says something
-- and each other member gets it once.
pub data RoomStep (m : Room) (d : Delivery) (n : Room) : Type 0 where
  nothing : IsSilent d → ((g : ℕ) → n g ≡ m g) → RoomStep m d n
  comes :
      (fd : ℕ)
      → m fd ≡ false
      → IsSilent d
      → ((g : ℕ) → n g ≡ (if fd == g then true else m g))
      → RoomStep m d n
  goes :
      (fd : ℕ)
      → m fd ≡ true
      → IsSilent d
      → ((g : ℕ) → n g ≡ (if fd == g then false else m g))
      → RoomStep m d n
  says :
      (fd byte : ℕ) (bytes : List ℕ)
      → m fd ≡ true
      → ((g : ℕ) → d g ≡ (if fd == g then [] else if m g then (byte ∷ bytes) ∷ [] else []))
      → ((g : ℕ) → n g ≡ m g)
      → RoomStep m d n

-- The clients that are being served.
abbrev pub room : Server → Room
room s = λ fd. not (served s.main (s.thread fd) fd == 0)

abbrev pub delivery : List Event → Delivery
delivery es = λ g. messages g es

-- A run of the server from its start, with what each step did, the last one first.
pub data Run (texts : Texts) (send_result : Send) : List (List Event) → Server → Type 0 where
  begin : Run texts send_result [] init
  next :
      {ess : List (List Event)} {s t : Server} {es : List Event}
      → Run texts send_result ess s
      → Step texts send_result s es t
      → Run texts send_result (es ∷ ess) t

-- A run of a room that is empty at first.
pub data RoomRun : List Delivery → Room → Type 0 where
  empty : {m : Room} → ((g : ℕ) → m g ≡ false) → RoomRun [] m
  more :
      {ds : List Delivery} {m n : Room} {d : Delivery}
      → RoomRun ds m
      → RoomStep m d n
      → RoomRun (d ∷ ds) n

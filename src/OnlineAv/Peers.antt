-- ===== src/OnlineAv/Peers.antt =====
-- Online_AV/Online_AV.cpp, `sendHELLO` and `LookForPeers`: how the programs find one another.
use Prim.Native.String.{String}
pub mod Discovery
pub mod AsSet
use eng_project.Base.{
  ℕ, Bool, true, false, ◌&&◌, List, [], ◌∷◌, ◌++◌, ℤ, is_pos, is_neg, ◌==◌, if◌then◌else◌, Received,
  count, payload, take,
}
use eng_project.OnlineAv.Net.{SockaddrIn, Event, datagram, cerr, cout, Sendto, complain, same_addr}

-- "HELLO"
abbrev pub hello : List ℕ
hello = b'H' ∷ b'E' ∷ b'L' ∷ b'L' ∷ b'O' ∷ []

abbrev pub udp_port : ℕ
udp_port = 12345

-- `brd_address`: INADDR_BROADCAST, `htons(UDP_port)` (the port is kept in host order here)
abbrev pub brd_address : SockaddrIn
brd_address = record { s_addr = 0xffffffff; sin_port = udp_port }

-- `sendHELLO`: one broadcast for each round that begins while `running` is set. The sleep of
-- `Broadcast_Int` seconds between the rounds changes nothing.
unfoldable pub send_hello : List ℤ → List Event
send_hello [] = []
send_hello (result ∷ results) =
    (datagram brd_address hello ∷ complain "Failed to broadcast message " result)
    ++ send_hello results

-- The characters that `strcmp` sees: those before the first NUL.
unfoldable pub c_string : List ℕ → List ℕ
c_string [] = []
c_string (c ∷ cs) = let rest = c ∷ c_string cs in if c == 0 then [] else rest

-- `strcmp(s, t) == 0` for C strings without NUL inside.
unfoldable pub str_eq : List ℕ → List ℕ → Bool
str_eq [] [] = true
str_eq (a ∷ s) (b ∷ t) = a == b && str_eq s t
str_eq _ _ = false

-- `buffer[Audio_rec] = '\0'; strcmp(buffer, "HELLO") == 0`, where `recvfrom` stores at most 1023
-- bytes of the datagram.
unfoldable pub is_hello : List ℕ → Bool
unfolding c_string str_eq
is_hello bytes = str_eq (c_string (take 1023 bytes ++ 0 ∷ [])) hello

-- `std::find_if(…) != peer_List.end()`
unfoldable pub is_known : SockaddrIn → List SockaddrIn → Bool
is_known peer [] = false
is_known peer (addr ∷ addrs) =
    let rest = is_known peer addrs in if same_addr addr peer then true else rest

-- What `recvfrom` got, and from whom.
pub record Hail : Type 0 where
  pub received : Received
  pub peer_addr : SockaddrIn

pub record Discovered : Type 0 where
  pub peer_list : List SockaddrIn
  pub events : List Event

-- One round of `LookForPeers`.
unfoldable pub look_round : List SockaddrIn → Hail → Discovered
look_round peer_list h =
    if is_pos (count h.received)
    then (if is_hello (payload h.received)
        then (if is_known h.peer_addr peer_list
            then record { peer_list = peer_list; events = [] }
            else record {
              peer_list = peer_list ++ h.peer_addr ∷ [];
              events = cout "Peer: " h.peer_addr.s_addr ∷ [];
            })
        else record { peer_list = peer_list; events = [] })
    else record { peer_list = peer_list; events = [] }

-- `LookForPeers`: the rounds that begin while `running` is set.
unfoldable pub look_for_peers : List SockaddrIn → List Hail → Discovered
look_for_peers peer_list [] = record { peer_list = peer_list; events = [] }
look_for_peers peer_list (h ∷ hs) =
    let now = look_round peer_list h in
    let rest = look_for_peers now.peer_list hs in
    record { peer_list = rest.peer_list; events = now.events ++ rest.events }

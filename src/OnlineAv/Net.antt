-- ===== src/OnlineAv/Net.antt =====
-- Online_AV/Online_AV.cpp: peer addresses, and what the threads do to the world outside.
use Prim.Native.String.{String}
use eng_project.Base.{
  ℕ, suc, ◌≡◌, refl, Bool, ◌&&◌, List, [], ◌∷◌, ◌++◌, ℤ, is_neg, ◌==◌, if◌then◌else◌, replicate,
  arith,
}

-- `sockaddr_in`, the part that the program reads. The family is AF_INET in every address.
pub record SockaddrIn : Type 0 where
  pub s_addr : ℕ
  pub sin_port : ℕ

-- A datagram handed to `sendto`, or a line on the error or standard output.
pub data Event : Type 0 where
  datagram : SockaddrIn → List ℕ → Event
  cerr : String → Event
  cout : String → ℕ → Event

-- What `sendto` returns.
abbrev pub Sendto : Type 0
Sendto = SockaddrIn → List ℕ → ℤ

abbrev pub complain : String → ℤ → List Event
complain message result = if is_neg result then cerr message ∷ [] else []

-- `for (peer : peers) if (sendto(sockfd, packet, …, peer) < 0) std::cerr << message`
unfoldable pub send_to_all : Sendto → String → List ℕ → List SockaddrIn → List Event
send_to_all sendto message packet [] = []
send_to_all sendto message packet (peer ∷ peers) =
    (datagram peer packet ∷ complain message (sendto peer packet))
    ++ send_to_all sendto message packet peers

-- `addr.sin_addr.s_addr == peer.sin_addr.s_addr && addr.sin_port == peer.sin_port`
abbrev pub same_addr : SockaddrIn → SockaddrIn → Bool
same_addr a b = a.s_addr == b.s_addr && a.sin_port == b.sin_port

-- How often an address stands in a list.
unfoldable pub occurs : SockaddrIn → List SockaddrIn → ℕ
occurs a [] = 0
occurs a (b ∷ bs) = if same_addr b a then suc (occurs a bs) else occurs a bs

-- The datagrams for one address, in order.
unfoldable pub mail : SockaddrIn → List Event → List (List ℕ)
mail a [] = []
mail a (datagram b packet ∷ es) = if same_addr b a then packet ∷ mail a es else mail a es
mail a (cerr _ ∷ es) = mail a es
mail a (cout _ _ ∷ es) = mail a es

pub mail-append : (a : SockaddrIn) (es fs : List Event) → mail a (es ++ fs) ≡ mail a es ++ mail a fs
unfolding mail
mail-append a [] fs = refl
mail-append a (datagram b packet ∷ es) fs = ground (arith, mail-append a es fs)
mail-append a (cerr _ ∷ es) fs = mail-append a es fs
mail-append a (cout _ _ ∷ es) fs = mail-append a es fs

-- Each address of the list is sent the packet once for each time that it stands there, whether or
-- not earlier calls of `sendto` failed.
pub mail-send_to_all :
    (sendto : Sendto) (message : String) (packet : List ℕ) (a : SockaddrIn)
    (peers : List SockaddrIn)
    → mail a (send_to_all sendto message packet peers) ≡ replicate (occurs a peers) packet
unfolding mail send_to_all occurs
mail-send_to_all sendto message packet a [] = refl
mail-send_to_all sendto message packet a (b ∷ peers) = ground (
  arith,
  mail-append a (complain message (sendto b packet)) (send_to_all sendto message packet peers),
  mail-send_to_all sendto message packet a peers,
)

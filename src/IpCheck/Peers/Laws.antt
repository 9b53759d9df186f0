-- ===== src/IpCheck/Peers/Laws.antt =====
-- What the set of addresses holds, and that it stays a set.
use eng_project.Base.{
  ℕ, ◌≡◌, refl, Bool, Bool-cases, inl, inr, true, false, not, ◌&&◌, ◌||◌, List, [], ◌∷◌, is_pos,
  if◌then◌else◌, count, arith,
}
use eng_project.OnlineAv.Peers.{Hail, str_eq}
use eng_project.IpCheck.Peers.{Text, less, insert, find, loopback, listen_round, listen_for_peers}

str_eq→eq : (s t : Text) → str_eq s t ≡ true → s ≡ t
unfolding str_eq
str_eq→eq [] [] e = refl
str_eq→eq [] (b ∷ t) e = cc
str_eq→eq (a ∷ s) [] e = cc
str_eq→eq (a ∷ s) (b ∷ t) e = ground (arith, str_eq→eq s t)

-- The order tells all texts apart.
less_total : (s t : Text) → less s t ≡ false → less t s ≡ false → s ≡ t
unfolding less
less_total [] [] h k = refl
less_total [] (b ∷ t) h k = cc
less_total (a ∷ s) [] h k = cc
less_total (a ∷ s) (b ∷ t) h k = ground (arith, less_total s t)

-- Each element is less than the next.
abbrev pub Ascending : List Text → Type 0
Ascending [] = Unit
Ascending (x ∷ []) = Unit
Ascending (x ∷ y ∷ xs) = (less x y ≡ true) × Ascending (y ∷ xs)

abbrev Above : Text → List Text → Type 0
Above x [] = Unit
Above x (y ∷ ys) = less x y ≡ true

Ascending-cons : (x : Text) (xs : List Text) → Above x xs → Ascending xs → Ascending (x ∷ xs)
Ascending-cons x [] h k = tt
Ascending-cons x (y ∷ ys) h k = (h, k)

Ascending-tail : (x : Text) (xs : List Text) → Ascending (x ∷ xs) → Above x xs × Ascending xs
Ascending-tail x [] h = (tt, tt)
Ascending-tail x (y ∷ ys) h = h

Above-insert : (x s : Text) (xs : List Text) → less x s ≡ true → Above x xs → Above x (insert s xs)
unfolding insert
Above-insert x s [] h k = h
Above-insert x s (y ∷ ys) h k = elim (Bool-cases (less s y)) [
  | inl before ↦ rw before h
  | inr after ↦ elim (Bool-cases (less y s)) [
    | inl above ↦ rw (after, above) k
    | inr same ↦ rw (after, same) k
  ]
]

insert-Ascending : (s : Text) (xs : List Text) → Ascending xs → Ascending (insert s xs)
unfolding insert
insert-Ascending s [] h = tt
insert-Ascending s (x ∷ xs) h =
    let (above, rest) = Ascending-tail x xs h in
    elim (Bool-cases (less s x)) [
      | inl before ↦ rw before (before, h)
      | inr after ↦ elim (Bool-cases (less x s)) [
        | inl later ↦
            rw (after, later)
              (Ascending-cons x (insert s xs) (Above-insert x s xs later above)
                (insert-Ascending s xs rest))
        | inr same ↦ rw (after, same) h
      ]
    ]

find-insert :
    (t s : Text) (xs : List Text) → find t (insert s xs) ≡ (if str_eq s t then true else find t xs)
unfolding find insert
find-insert t s [] = refl
find-insert t s (x ∷ xs) = ground (arith, find-insert t s xs, less_total s x)

-- A datagram came from this address, and it is not the loopback address.
abbrev pub hailed : (ℕ → Text) → Text → List Hail → Bool
hailed inet_ntoa t [] = false
hailed inet_ntoa t (h ∷ hs) =
    (is_pos (count h.received)
      && str_eq (inet_ntoa h.peer_addr.s_addr) t
      && not (str_eq t loopback))
    || hailed inet_ntoa t hs

module _ (inet_ntoa : ℕ → Text) where
  listen_round-Ascending :
      (s : List Text) (h : Hail) → Ascending s → Ascending (listen_round inet_ntoa s h)
  unfolding listen_round
  listen_round-Ascending s h a = ground (arith, insert-Ascending (inet_ntoa h.peer_addr.s_addr) s)

  listen_round-find :
      (t : Text) (s : List Text) (h : Hail)
      → find t (listen_round inet_ntoa s h) ≡ find t s || hailed inet_ntoa t (h ∷ [])
  unfolding listen_round
  listen_round-find t s h =
      let ip : Text = inet_ntoa h.peer_addr.s_addr in
      ground (arith, find-insert t ip s, str_eq→eq ip t)

  listen_all :
      (t : Text) (s : List Text) (hs : List Hail)
      → Ascending s
      → Ascending (listen_for_peers inet_ntoa s hs)
        × (find t (listen_for_peers inet_ntoa s hs) ≡ find t s || hailed inet_ntoa t hs)
  unfolding listen_for_peers
  listen_all t s [] a = (a, elim (Bool-cases (find t s)) [ inl e ↦ rw e refl | inr e ↦ rw e refl ])
  listen_all t s (h ∷ hs) a =
      let (up, found) =
        listen_all t (listen_round inet_ntoa s h) hs (listen_round-Ascending s h a) in
      (up, ground (arith, listen_round-find t s h))

  -- The set is one, and holds what it should: whatever datagrams come, starting with an ascending
  -- list, the addresses stay in ascending order of their texts, each less than the next, and a text
  -- is found among them exactly if it was there before, or some datagram of at least one byte came
  -- from the address with this text, and it is not 127.0.0.1.
  pub listen_for_peers-set :
      (s : List Text) (hs : List Hail)
      → Ascending s
      → Ascending (listen_for_peers inet_ntoa s hs)
        × ((t : Text)
            → find t (listen_for_peers inet_ntoa s hs) ≡ find t s || hailed inet_ntoa t hs)
  listen_for_peers-set s hs a = ((listen_all [] s hs a).0, λ t. (listen_all t s hs a).1)

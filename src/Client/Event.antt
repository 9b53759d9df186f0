-- ===== src/Client/Event.antt =====
-- What the client does to the world outside. A socket is a signed number: -1 where there is none.
use Prim.Native.String.{String}
use eng_project.Base.{
  ℕ, Bool, false, List, [], ◌∷◌, ◌++◌, ◌≡◌, refl, ℤ, pos, negsuc, ◌==◌, if◌then◌else◌, suc, ◌+◌,
  arith,
}

pub data Event : Type 0 where
  send : (socket : ℤ) → List ℕ → Event
  play : List ℕ → Event
  close : (socket : ℤ) → Event
  close_device : Event
  sleep : (seconds : ℕ) → Event
  perror : String → Event
  cerr : String → Event
  cout : String → Event

abbrev pub eq_ℤ : ℤ → ℤ → Bool
eq_ℤ (pos m) (pos n) = m == n
eq_ℤ (negsuc m) (negsuc n) = m == n
eq_ℤ _ _ = false

-- What is sent on a socket, in order.
unfoldable pub messages : ℤ → List Event → List (List ℕ)
messages s [] = []
messages s (send t bytes ∷ es) = if eq_ℤ t s then bytes ∷ messages s es else messages s es
messages s (_ ∷ es) = messages s es

-- How often a socket is closed.
unfoldable pub closes : ℤ → List Event → ℕ
closes s [] = 0
closes s (close t ∷ es) = if eq_ℤ t s then suc (closes s es) else closes s es
closes s (_ ∷ es) = closes s es

-- The seconds slept.
unfoldable pub slept : List Event → ℕ
slept [] = 0
slept (sleep n ∷ es) = n + slept es
slept (_ ∷ es) = slept es

pub messages-append :
    (s : ℤ) (es fs : List Event) → messages s (es ++ fs) ≡ messages s es ++ messages s fs
unfolding messages
messages-append s [] fs = refl
messages-append s (send t bytes ∷ es) fs = ground (arith, messages-append s es fs)
messages-append s (_ ∷ es) fs = messages-append s es fs

pub closes-append : (s : ℤ) (es fs : List Event) → closes s (es ++ fs) ≡ closes s es + closes s fs
unfolding closes
closes-append s [] fs = omega arith
closes-append s (close t ∷ es) fs = ground (arith, closes-append s es fs)
closes-append s (_ ∷ es) fs = closes-append s es fs

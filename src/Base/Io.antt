-- ===== src/Base/Io.antt =====
-- Results of the blocking calls that the programs make.
use Prim.Native.Nat.{ℕ}
use mathlib.Core.List.{List, []}
use mathlib.Core.Option.{Option, none, some}
use eng_project.Base.Int.{ℤ, pos, negsuc}
use eng_project.Base.Lists.{length}

-- What `recv` did: it failed, or it stored these bytes in the buffer. No bytes: end of stream.
pub data Received : Type 0 where
  failed : Received
  got : List ℕ → Received

-- The value that `recv` returns.
abbrev pub count : Received → ℤ
count failed = negsuc 0
count (got bytes) = pos (length bytes)

abbrev pub payload : Received → List ℕ
payload failed = []
payload (got bytes) = bytes

-- Sequencing of steps that may run into undefined behaviour.
infixl 5 ◌>>=◌
abbrev pub ◌>>=◌ {ℓ κ} : {A : Type ℓ} {B : Type κ} → Option A → (A → Option B) → Option B
none >>= f = none
some a >>= f = f a

-- ===== src/Conversation/Pieces.antt =====
-- The pieces in which a stream of sound arrives, and what is played of them.
use mathlib.Core.List.{flatten}
use eng_project.Base.{
  ℕ, ◌+◌, ◌*◌, ◌/◌, ◌%◌, ◌≡◌, ◌↔◌, refl, ap, ap₂, List, [], ◌∷◌, ◌++◌, map, All, length,
  length-append, length-take, arith,
}
use eng_project.Client.Playback.{whole_frames}
use eng_project.Client.Playback.Stream.{whole_frames-eq}

-- A piece that ends with a frame.
abbrev pub IsWhole : List ℕ → Type 0
IsWhole bytes = length bytes % 4 ≡ 0

-- The bytes at the end of each piece that are no whole frame.
unfoldable pub lost : List (List ℕ) → ℕ
lost [] = 0
lost (bytes ∷ pieces) = length bytes % 4 + lost pieces

length-whole_frames :
    (bytes : List ℕ) → length (whole_frames bytes) + length bytes % 4 ≡ length bytes
length-whole_frames bytes = omega (arith, length-take (length bytes / 4 * 4) bytes)

pub length-played :
    (pieces : List (List ℕ))
    → length (flatten (map whole_frames pieces)) + lost pieces ≡ length (flatten pieces)
unfolding flatten lost
length-played [] = refl
length-played (bytes ∷ pieces) = omega (
  arith,
  length-append (whole_frames bytes) (flatten (map whole_frames pieces)),
  length-append bytes (flatten pieces),
  length-whole_frames bytes,
  length-played pieces,
)

lost_nothing : (pieces : List (List ℕ)) → lost pieces ≡ 0 → All IsWhole pieces
unfolding lost
lost_nothing [] e = tt
lost_nothing (bytes ∷ pieces) e = (omega arith, lost_nothing pieces (omega arith))

played_whole :
    (pieces : List (List ℕ))
    → All IsWhole pieces
    → flatten (map whole_frames pieces) ≡ flatten pieces
unfolding flatten
played_whole [] h = refl
played_whole (bytes ∷ pieces) h = ap₂ ◌++◌ (whole_frames-eq bytes h.0) (played_whole pieces h.1)

-- All is played exactly if no piece is cut within a frame.
pub played-iff_IsWhole :
    (pieces : List (List ℕ))
    → (flatten (map whole_frames pieces) ≡ flatten pieces) ↔ All IsWhole pieces
played-iff_IsWhole pieces = (
  λ e. lost_nothing pieces (let same = ap length e in omega (arith, length-played pieces)),
  played_whole pieces,
)

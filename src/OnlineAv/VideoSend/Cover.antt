-- ===== src/OnlineAv/VideoSend/Cover.antt =====
-- The fragments of a frame: how many there are, what each holds, that they fit the wire format.
use native.Mathlib.Bridge.{le_prop}
use eng_project.Base.{
  ℕ, suc, ◌+◌, ◌-◌, ◌*◌, ◌/◌, ◌%◌, ◌^◌, ◌<◌, ◌≤◌, ◌≡◌, min, List, ◌++◌, arith, ◌==◌, length, take,
  drop, replicate, length-append, length-take, length-drop, length-replicate, All, All-mono,
}
use eng_project.OnlineAv.Fragment.{VideoFragment, IsWire}
use eng_project.OnlineAv.VideoSend.{total_fragments, make_fragment}

-- No encoded frame comes near this bound: 2 ^ 32 bytes.
abbrev pub Fits : List ℕ → Type 0
Fits enc = length enc < 2 ^ 32

pub total_fragments_lem :
    (enc : List ℕ) → Fits enc → total_fragments enc ≡ (length enc + 1399) / 1400
unfolding total_fragments
total_fragments_lem enc h = omega arith

pub total_bounds :
    (enc : List ℕ)
    → Fits enc
    → (length enc ≤ total_fragments enc * 1400)
      × (total_fragments enc * 1400 < length enc + 1400)
      × (total_fragments enc < 2 ^ 32)
total_bounds enc h = omega (arith, total_fragments_lem enc h)

-- The fields of fragment `i`, with the wrap-around gone.
module _ (seq : ℕ) (enc : List ℕ) (i : ℕ) (h : Fits enc) (lt : i < total_fragments enc) where
  abbrev frag : VideoFragment
  frag = make_fragment seq enc (total_fragments enc) i

  pub fragment_s_lem : frag.fragment_s ≡ min 1400 (length enc - i * 1400)
  unfolding make_fragment
  fragment_s_lem = omega (arith, total_fragments_lem enc h)

  pub last_fragment_lem : frag.last_fragment ≡ (suc i == total_fragments enc)
  unfolding make_fragment
  last_fragment_lem = ground (arith, total_bounds enc h)

  pub payload_lem :
      frag.fdata
      ≡ take frag.fragment_s (drop (i * 1400) enc) ++ replicate (1400 - frag.fragment_s) 0
  unfolding make_fragment
  payload_lem = let e : i * 1400 % 2 ^ 64 ≡ i * 1400 = omega (arith, total_bounds enc h) in rw e

  fragment_s-range : (0 < frag.fragment_s) × (frag.fragment_s ≤ 1400)
  fragment_s-range = omega (arith, fragment_s_lem, total_bounds enc h)

  fdata-full : length frag.fdata ≡ 1400
  fdata-full = rw payload_lem (
      omega (
        arith,
        length-append {0} (take frag.fragment_s (drop (i * 1400) enc))
            (replicate (1400 - frag.fragment_s) 0),
        length-take {0} frag.fragment_s (drop (i * 1400) enc),
        length-drop {0} (i * 1400) enc,
        length-replicate {0} {A = ℕ} (1400 - frag.fragment_s) 0,
        fragment_s_lem,
      ))

  pub make_fragment-IsWire : seq < 2 ^ 32 → IsWire frag
  unfolding make_fragment
  make_fragment-IsWire s = record {
    seq_fits = s;
    index_fits = omega (arith, total_bounds enc h);
    total_fits = (total_bounds enc h).2;
    size_fits = omega arith;
    data_full = fdata-full;
  }

-- What a receiver relies on of a fragment of frame `seq`.
pub record Piece (seq total : ℕ) (f : VideoFragment) : Type 0 where
  pub wire : IsWire f
  pub own : f.frame_seq ≡ seq
  pub share : f.total_fragments ≡ total
  pub small : f.fragment_s ≤ 1400

pub Piece-prop : (seq total : ℕ) (f : VideoFragment) → IsProp (Piece seq total f)
Piece-prop seq total f = hlevel le_prop

-- What it relies on to store the fragment, whatever frame it is a part of.
pub record Own (seq : ℕ) (f : VideoFragment) : Type 0 where
  pub wire : IsWire f
  pub own : f.frame_seq ≡ seq

pub Own-prop : (seq : ℕ) (f : VideoFragment) → IsProp (Own seq f)
Own-prop seq f = hlevel le_prop

pub Piece-Own : (seq total : ℕ) (f : VideoFragment) → Piece seq total f → Own seq f
Piece-Own seq total f h = record { wire = h.wire; own = h.own }

pub All-Own :
    (seq total : ℕ) (fs : List VideoFragment) → All (Piece seq total) fs → All (Own seq) fs
All-Own seq total fs h = All-mono fs (Piece-Own seq total) h

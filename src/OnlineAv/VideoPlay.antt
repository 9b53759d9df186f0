-- ===== src/OnlineAv/VideoPlay.antt =====
-- Online_AV/Online_AV.cpp, `VideoPlayback`: fragments are collected by frame, put in order, joined,
-- decoded and shown. `none` stands for undefined behaviour: a read past the end of `Fdata`.
-- OpenCV's decoder and `std::sort` are parameters. The local `current_frame_seq` is never used.
pub mod Order
pub mod Collect
pub mod Roundtrip
pub mod Faults
pub mod Mixed
pub mod Parts
pub mod Lossy
use Prim.Native.String.{String}
use eng_project.Base.{
  ℕ, ◌≤◌, Bool, true, false, Option, none, some, List, [], ◌∷◌, ◌++◌, Perm, ◌==◌, leb, ℤ, pos,
  negsuc, if◌then◌else◌, Received, failed, got, length, take, ◌>>=◌,
}
use mathlib.Core.List.{Pairwise}
use eng_project.Base.Assoc.{lookup, insert, erase}
use eng_project.OnlineAv.Fragment.{VideoFragment, max_fragment_s, recv_fragment}

abbrev pub Buffer : Type 0
Buffer = List (ℕ × List VideoFragment)

-- `fragment_buffer[k]`, which is empty for a new key.
unfoldable pub at : ℕ → Buffer → List VideoFragment
at k m = elim (lookup k m) [ none ↦ [] | some fs ↦ fs ]

-- `fragment_buffer[fragment.frame_seq].push_back(fragment)`
unfoldable pub push_back : VideoFragment → Buffer → Buffer
unfolding at
push_back f m = insert f.frame_seq (at f.frame_seq m ++ f ∷ []) m

-- `reassembled_frame.insert(end, frag.Fdata, frag.Fdata + frag.fragment_s)`
unfoldable pub frame_bytes : VideoFragment → Option (List ℕ)
frame_bytes f = if leb f.fragment_s max_fragment_s then some (take f.fragment_s f.fdata) else none

unfoldable pub reassemble : List VideoFragment → Option (List ℕ)
unfolding frame_bytes
reassemble [] = some []
reassemble (f ∷ fs) = do bytes ← frame_bytes f; rest ← reassemble fs; some (bytes ++ rest)

-- The order given to `std::sort`.
abbrev pub ByIndex : VideoFragment → VideoFragment → Type 0
ByIndex a b = a.fragment_i ≤ b.fragment_i

-- What `std::sort` with that order promises; elements with one index may come in any order.
pub record IsSort (sort : List VideoFragment → List VideoFragment) : Type 0 where
  pub perm : (l : List VideoFragment) → Perm (sort l) l
  pub sorted : (l : List VideoFragment) → Pairwise ByIndex (sort l)

pub data Screen (Image : Type 0) : Type 0 where
  shown : Image → Screen Image
  cerr : String → Screen Image

pub record Player (Image : Type 0) : Type 0 where
  pub running : Bool
  pub reassembled_frame : List ℕ
  pub fragment_buffer : Buffer
  pub log : List (Screen Image)

-- What `recv` did, and what `waitKey` will return if a frame is shown.
pub record Arrival : Type 0 where
  pub received : Received
  pub key : ℤ

abbrev pub is_escape : ℤ → Bool
is_escape (pos n) = n == 27
is_escape (negsuc n) = false

module _ {Image : Type 0} (imdecode : List ℕ → Option Image)
    (sort : List VideoFragment → List VideoFragment) where
  -- `imdecode`, `imshow` and `waitKey`; an empty `Mat` is not shown.
  unfoldable pub show_frame : Player Image → List ℕ → ℤ → Player Image
  show_frame p bytes key = elim (imdecode bytes) [
    | none ↦ record p { reassembled_frame = bytes }
    | some image ↦ record p {
      running = if is_escape key then false else p.running;
      reassembled_frame = bytes;
      log = p.log ++ shown image ∷ [];
    }
  ]

  -- The last fragment has come: show the frame if all of it is there.
  unfoldable pub complete : Player Image → VideoFragment → ℤ → Option (Player Image)
  complete p f key =
      let stored = at f.frame_seq p.fragment_buffer in
      let rest = erase f.frame_seq p.fragment_buffer in
      if length stored == f.total_fragments
      then (reassemble (sort stored) >>= λ bytes.
          some (record (show_frame p bytes key) { fragment_buffer = rest }))
      else some p

  unfoldable pub store : Player Image → VideoFragment → ℤ → Option (Player Image)
  store p f key =
      let p' = record p { fragment_buffer = push_back f p.fragment_buffer } in
      if f.last_fragment then complete p' f key else some p'

  -- One round of `while (running)`.
  unfoldable pub play_round : Player Image → Arrival → Option (Player Image)
  play_round p a = elim a.received [
    | failed ↦ some (record p { log = p.log ++ cerr "Receiving error. \n" ∷ [] })
    | got bytes ↦ store p (recv_fragment bytes) a.key
  ]

  unfoldable pub play_video : Player Image → List Arrival → Option (Player Image)
  play_video p [] = some p
  play_video p (a ∷ later) = elim p.running [
    | true ↦ play_round p a >>= λ p'. play_video p' later
    | false ↦ some p
  ]

pub player : {Image : Type 0} → Player Image
player = record { running = true; reassembled_frame = []; fragment_buffer = []; log = [] }

-- ===== src/RtAudio/Heard.antt =====
-- What the receiver plays of what the sender captures.
use eng_project.Base.{
  ℕ, ◌≤◌, ◌≡◌, refl, ap, true, List, [], ◌∷◌, ◌++◌, map, is_pos, got, count, All, arith, length,
  length-append, length-drop, drop, take_of_length-le,
}
use eng_project.OnlineAv.Fragment.{overlay_short}
use eng_project.Client.Playback.{whole_frames}
use eng_project.Client.Playback.Stream.{whole_frames-eq}
use eng_project.RtAudio.Sender
use eng_project.RtAudio.Sender.{bufsize, send_loop}
use eng_project.RtAudio.Receiver
use eng_project.RtAudio.Receiver.{stored, receive_loop}

-- The datagrams, and the sound that is given to the device, in order.
unfoldable pub datagrams : List Sender.Event → List (List ℕ)
datagrams [] = []
datagrams (Sender.sendto bytes ∷ es) = bytes ∷ datagrams es
datagrams (_ ∷ es) = datagrams es

unfoldable pub plays : List Receiver.Event → List (List ℕ)
plays [] = []
plays (Receiver.play bytes ∷ es) = bytes ∷ plays es
plays (_ ∷ es) = plays es

-- Each block is the new bytes, and behind them what the block before had there.
abbrev pub blocks : List ℕ → List (List ℕ) → List (List ℕ)
blocks last [] = []
blocks last (new ∷ rounds) =
    (new ++ drop (length new) last) ∷ blocks (new ++ drop (length new) last) rounds

abbrev pub Fits : List ℕ → Type 0
Fits new = length new ≤ 1024

length-block :
    (new last : List ℕ)
    → Fits new
    → length last ≡ 1024
    → length (new ++ drop (length new) last) ≡ 1024
length-block new last fits full =
    omega (arith, full, length-append new (drop (length new) last), length-drop (length new) last)

block-played :
    (block : List ℕ)
    → length block ≡ 1024
    → (is_pos (count (got block)) ≡ true) × (whole_frames (stored (got block)) ≡ block)
block-played block full = (
  ground arith,
  rw (take_of_length-le bufsize block (omega arith)) (whole_frames-eq block (omega arith)),
)

-- The receiver plays each block, and a short capture is filled up with old sound: if all datagrams of
-- the sender arrive in order, its captures store at most 1024 bytes each, and its array has 1024
-- bytes, then the sound device is given for each round exactly the bytes captured in it, and behind
-- them what the block of the round before had there; a capture that fails repeats the whole block.
pub captured-heard :
    (buffer : List ℕ) (rounds : List (List ℕ))
    → length buffer ≡ 1024
    → All Fits rounds
    → plays (receive_loop (map got (datagrams (send_loop buffer rounds)))) ≡ blocks buffer rounds
unfolding send_loop datagrams receive_loop plays
captured-heard buffer [] full fits = refl
captured-heard buffer (new ∷ rounds) full fits =
    let block : List ℕ = new ++ drop (length new) buffer in
    let (some_bytes, whole) = block-played block (length-block new buffer fits.0 full) in
    rw (overlay_short bufsize new buffer fits.0) (
      rw (some_bytes, whole)
        (ap (◌∷◌ block) (captured-heard block rounds (length-block new buffer fits.0 full) fits.1)))

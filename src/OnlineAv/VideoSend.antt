-- ===== src/OnlineAv/VideoSend.antt =====
-- Online_AV/Online_AV.cpp, `VideoRecandSend`: a frame is encoded, cut into fragments and sent.
-- `size_t` is 64 bits wide, `uint32_t` 32; the wrap-around of both is written out.
pub mod Cover
pub mod Bounds
pub mod Frames
use eng_project.Base.{
  ℕ, zero, suc, ◌+◌, ◌-◌, ◌*◌, ◌/◌, ◌%◌, ◌^◌, min, Bool, true, false, List, [], ◌∷◌, ◌++◌, ◌==◌,
  length, take, drop, replicate,
}
use eng_project.OnlineAv.Net.{SockaddrIn, Event, cerr, Sendto, send_to_all}
use eng_project.OnlineAv.Fragment.{VideoFragment, max_fragment_s, to_image}

abbrev size_t : ℕ → ℕ
size_t n = n % 2 ^ 64

abbrev uint32 : ℕ → ℕ
uint32 n = n % 2 ^ 32

-- `(frame_size + max_fragment_s - 1) / max_fragment_s`, stored in a `uint32_t`
unfoldable pub total_fragments : List ℕ → ℕ
total_fragments enc_frame = uint32 (size_t (length enc_frame + max_fragment_s - 1) / max_fragment_s)

-- The body of the loop over `fragment_i`, up to the lock. `total - 1` is computed in `uint32_t`,
-- `frame_size - offset` in `size_t`.
unfoldable pub make_fragment : ℕ → List ℕ → ℕ → ℕ → VideoFragment
make_fragment frame_seq enc_frame total i =
    let offset : ℕ = size_t (i * max_fragment_s) in
    let fragment_s : ℕ = min max_fragment_s (size_t (length enc_frame + 2 ^ 64 - offset)) in
    record {
      frame_seq = frame_seq;
      fragment_i = i;
      total_fragments = total;
      last_fragment = i == uint32 (total + 2 ^ 32 - 1);
      fragment_s = fragment_s;
      fdata = take fragment_s (drop offset enc_frame) ++ replicate (max_fragment_s - fragment_s) 0;
    }

-- `for (fragment_i = 0; fragment_i < total_fragments; ++fragment_i)`, by the rounds that are left.
unfoldable pub fragments_from : ℕ → List ℕ → ℕ → ℕ → ℕ → List VideoFragment
fragments_from frame_seq enc_frame total zero i = []
fragments_from frame_seq enc_frame total (suc rounds) i =
    make_fragment frame_seq enc_frame total i
    ∷ fragments_from frame_seq enc_frame total rounds (suc i)

unfoldable pub fragments : ℕ → List ℕ → List VideoFragment
unfolding fragments_from
fragments frame_seq enc_frame =
    fragments_from frame_seq enc_frame (total_fragments enc_frame) (total_fragments enc_frame) 0

-- Each fragment is sent under the lock of the peer list, so to the peers known at that moment:
-- `peers i` when the lock is taken for fragment `i`.
unfoldable pub send_fragments : Sendto → (ℕ → List SockaddrIn) → List VideoFragment → List Event
unfolding send_to_all
send_fragments sendto peers [] = []
send_fragments sendto peers (f ∷ fs) =
    send_to_all sendto "Transmission error: " (to_image f) (peers f.fragment_i)
    ++ send_fragments sendto peers fs

-- What one round of the loop gets from the camera and the encoder.
pub data Capture : Type 0 where
  no_frame : Capture
  encode_failed : Capture
  encoded : List ℕ → (ℕ → List SockaddrIn) → Capture

pub record Sent : Type 0 where
  pub next_seq : ℕ
  pub events : List Event

-- One round of `while (running)`.
unfoldable pub send_frame : Sendto → ℕ → Capture → Sent
unfolding fragments send_fragments
send_frame sendto frame_seq no_frame = record {
  next_seq = frame_seq;
  events = cerr "Failed to rec video. \n" ∷ [];
}
send_frame sendto frame_seq encode_failed = record {
  next_seq = frame_seq;
  events = cerr "Video Encode error. \n" ∷ [];
}
send_frame sendto frame_seq (encoded enc_frame peers) = record {
  next_seq = uint32 (frame_seq + 1);
  events = send_fragments sendto peers (fragments frame_seq enc_frame);
}

-- The rounds that begin before `running` is cleared.
unfoldable pub send_video : Sendto → ℕ → List Capture → Sent
unfolding send_frame
send_video sendto frame_seq [] = record { next_seq = frame_seq; events = [] }
send_video sendto frame_seq (c ∷ cs) =
    let sent = send_frame sendto frame_seq c in
    let rest = send_video sendto sent.next_seq cs in
    record { next_seq = rest.next_seq; events = sent.events ++ rest.events }

pub record VideoThread : Type 0 where
  pub running : Bool
  pub events : List Event

-- `VideoRecandSend`: without a camera it stops the whole program.
unfoldable pub video_rec_and_send : Sendto → (opened : Bool) → List Capture → VideoThread
unfolding send_video
video_rec_and_send sendto true captures = record {
  running = true;
  events = (send_video sendto 0 captures).events;
}
video_rec_and_send sendto false captures = record {
  running = false;
  events = cerr "Video device error. \n" ∷ [];
}

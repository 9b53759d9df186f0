-- ===== src/OnlineAv/VideoSend/Bounds.antt =====
-- Sizes and ranges in `VideoRecandSend`: what is read of the frame, and what goes on the wire.
use eng_project.Base.{ℕ, ◌+◌, ◌*◌, ◌^◌, ◌<◌, ◌≤◌, ◌≡◌, List, length, arith}
use eng_project.OnlineAv.Fragment.{VideoFragment, sizeof_fragment, to_image, length-to_image}
use eng_project.OnlineAv.VideoSend.{total_fragments, make_fragment}
use eng_project.OnlineAv.VideoSend.Cover.{Fits, total_bounds, fragment_s_lem, make_fragment-IsWire}

-- No round reads or writes out of bounds: for a frame shorter than 2 ^ 32 bytes and each fragment
-- of it, the bytes copied lie within the encoded frame and within `Fdata`, there is at least one,
-- index and number of fragments fit a `uint32_t`, and the datagram has the size of the struct.
pub make_fragment_bounds :
    (seq : ℕ) (enc : List ℕ) (i : ℕ)
    → seq < 2 ^ 32
    → Fits enc
    → i < total_fragments enc
    → (0 < (make_fragment seq enc (total_fragments enc) i).fragment_s)
      × ((make_fragment seq enc (total_fragments enc) i).fragment_s ≤ 1400)
      × (i * 1400 + (make_fragment seq enc (total_fragments enc) i).fragment_s ≤ length enc)
      × (i < 2 ^ 32)
      × (total_fragments enc < 2 ^ 32)
      × (length (to_image (make_fragment seq enc (total_fragments enc) i)) ≡ sizeof_fragment)
make_fragment_bounds seq enc i seq_fits fits lt =
    let f : VideoFragment = make_fragment seq enc (total_fragments enc) i in
    let wire = length-to_image f (make_fragment-IsWire seq enc i fits lt seq_fits) in
    omega (arith, total_bounds enc fits, fragment_s_lem seq enc i fits lt)

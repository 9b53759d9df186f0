-- ===== src/OpenCvTest.antt =====
-- OpenCVTest/OpenCVTest.cpp: frames of the camera are written to a file and shown. What OpenCV does
-- is an input.
mod Examples
use Prim.Native.String.{String}
use eng_project.Base.{
  ℕ, ◌≡◌, refl, Bool, true, not, ◌||◌, List, [], ◌∷◌, ◌==◌, ℤ, pos, negsuc, if◌then◌else◌,
}

pub data Event (Image : Type 0) : Type 0 where
  write : Image → Event Image
  imshow : Image → Event Image
  release : Event Image
  cerr : String → Event Image
  frame_size : (width height : ℕ) → Event Image

-- What `cap >> frame` gives, and `static_cast<char>(cv::waitKey(1))` if the frame is shown.
pub data Grabbed (Image : Type 0) : Type 0 where
  empty : Grabbed Image
  frame : Image → (key : ℕ) → Grabbed Image

-- `while (true)`, and the release of all after it; the rounds so far if it goes on.
unfoldable pub show_loop : {Image : Type 0} → List (Grabbed Image) → List (Event Image)
show_loop [] = []
show_loop (empty ∷ rounds) = cerr "Error: Empty frame captured\n" ∷ release ∷ []
show_loop (frame image key ∷ rounds) =
    let rest = show_loop rounds in
    write image ∷ imshow image ∷ (if key == 27 || key == b'q' then release ∷ [] else rest)

pub record Exit (Image : Type 0) : Type 0 where
  pub code : ℤ
  pub events : List (Event Image)

-- `main`, with the size that the camera reports.
unfoldable pub main :
    {Image : Type 0}
    → (cap_opened writer_opened : Bool) → (width height : ℕ) → List (Grabbed Image)
    → Exit Image
unfolding show_loop
main cap_opened writer_opened width height rounds =
    if not cap_opened
    then record { code = negsuc 0; events = cerr "Error: Unable to open the webcam\n" ∷ [] }
    else if not writer_opened
    then record {
      code = negsuc 0;
      events = frame_size width height ∷ cerr "Error: Unable to open video writer\n" ∷ [];
    }
    else record { code = pos 0; events = frame_size width height ∷ show_loop rounds }

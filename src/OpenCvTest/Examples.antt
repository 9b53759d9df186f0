-- ===== src/OpenCvTest/Examples.antt =====
-- A run of the camera test.
use eng_project.Base.{ℕ, ◌≡◌, refl, true, List, [], ◌∷◌}
use eng_project.OpenCvTest.{Event, write, imshow, release, frame_size, Grabbed, frame, main}

abbrev grabbed : List (Grabbed ℕ)
grabbed = frame 1 0 ∷ frame 2 b'q' ∷ frame 3 0 ∷ []

abbrev done : List (Event ℕ)
done = frame_size 640 480 ∷ write 1 ∷ imshow 1 ∷ write 2 ∷ imshow 2 ∷ release ∷ []

-- The frame at which `q` is pressed is written and shown too.
last_frame : (main true true 640 480 grabbed).events ≡ done
unfolding main
last_frame = refl

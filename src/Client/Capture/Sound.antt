-- ===== src/Client/Capture/Sound.antt =====
-- The sound of a reading that goes well, as all clients cut it out of their buffer of 4096 bytes.
use eng_project.Base.{
  ℕ, ◌*◌, ◌≤◌, ◌<◌, ◌≡◌, List, [], length, take, drop, take-append_of_length, arith,
}
use eng_project.OnlineAv.Fragment.{overlay, overlay_short}
use eng_project.Client.Capture.{buffer_size, Reading, frames_read, recovered, broken}

abbrev pub sound : Reading → List ℕ
sound (frames_read n bytes) = bytes
sound (recovered n) = []
sound broken = []

-- Up to 1024 frames of 4 bytes, at least one.
abbrev pub HasSound : Reading → Type 0
HasSound (frames_read n bytes) = (0 < n) × (n ≤ 1024) × (length bytes ≡ n * 2 * 2)
HasSound (recovered n) = ⊥
HasSound broken = ⊥

pub captured :
    (n : ℕ) (bytes buffer : List ℕ)
    → length bytes ≡ n * 2 * 2
    → n ≤ 1024
    → take (n * 2 * 2) (overlay buffer_size bytes buffer) ≡ bytes
captured n bytes buffer full le =
    rw (overlay_short buffer_size bytes buffer (omega arith))
      (take-append_of_length (n * 2 * 2) bytes (drop (length bytes) buffer) full)

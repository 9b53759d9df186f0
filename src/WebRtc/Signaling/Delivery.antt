-- ===== src/WebRtc/Signaling/Delivery.antt =====
-- Which messages of the server are handed to the callback.
use eng_project.Base.{ℕ, ◌≡◌, refl, ap, Bool, true, false, List, [], ◌∷◌, ◌++◌, map, if◌then◌else◌}
use eng_project.WebRtc.Signaling.{
  callback, cerr, SignalingClient, Completion, failed, received, read,
}

-- A client with an empty buffer.
abbrev pub fresh : Bool → SignalingClient
fresh on_message = record { on_message = on_message; buffer = [] }

-- Each message is handed over once and alone, until the first error: if `read` is called with an empty
-- buffer, and messages come, and then an error, then a callback that is set gets each of the
-- messages unchanged and in order, the error is reported, and nothing that would come afterwards is
-- read. Without a callback, as in the program that is built, every message is dropped.
pub read-delivers :
    (on_message : Bool) (messages : List (List ℕ)) (later : List Completion)
    → read (fresh on_message) (map received messages ++ failed ∷ later)
      ≡ (if on_message then map callback messages else [])
        ++ cerr "Error reading from signaling server: " ∷ []
unfolding read
read-delivers true [] later = refl
read-delivers false [] later = refl
read-delivers true (m ∷ messages) later = ap (◌∷◌ (callback m)) (read-delivers true messages later)
read-delivers false (m ∷ messages) later = read-delivers false messages later

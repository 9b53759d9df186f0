-- ===== src/RtAudio/Sender.antt =====
-- rtaudio_stream/sender/audio_sender.cpp. What `snd_pcm_readi` and `sendto` return is not looked at.
use Prim.Native.String.{String}
use eng_project.Base.{ℕ, Bool, List, [], ◌∷◌, ℤ, is_neg, if◌then◌else◌}
use eng_project.OnlineAv.Fragment.{overlay}

-- BUFSIZE
abbrev pub bufsize : ℕ
bufsize = 1024

pub data Event : Type 0 where
  socket : Event
  sendto : List ℕ → Event
  perror : String → Event
  cerr : String → Event

-- `while (true)`: the bytes that `snd_pcm_readi` stores in each round so far, if any; the whole
-- buffer is sent.
unfoldable pub send_loop : List ℕ → List (List ℕ) → List Event
send_loop buffer [] = []
send_loop buffer (stored ∷ rounds) =
    let filled = overlay bufsize stored buffer in sendto filled ∷ send_loop filled rounds

-- `main` returns 1, or is in its loop. `buffer` is what the uninitialised array holds.
pub data Main : Type 0 where
  ended : (code : ℕ) → List Event → Main
  sending : List Event → Main

unfoldable pub main : (sockfd : ℤ) → (capture_opens : Bool) → List ℕ → List (List ℕ) → Main
unfolding send_loop
main sockfd capture_opens buffer rounds =
    if is_neg sockfd
    then ended 1 (perror "Socket creation failed" ∷ [])
    else if capture_opens
    then sending (socket ∷ send_loop buffer rounds)
    else ended 1 (socket ∷ cerr "Error opening capture device: " ∷ [])

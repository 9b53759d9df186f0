-- ===== src/RtAudio/Receiver.antt =====
-- rtaudio_stream/receiver/audio_receiver.cpp. What `snd_pcm_writei` returns is not looked at.
use Prim.Native.String.{String}
use eng_project.Base.{
  ℕ, Bool, List, [], ◌∷◌, ◌++◌, ℤ, is_neg, is_pos, if◌then◌else◌, Received, count, payload, take,
}
use eng_project.Client.Playback.{whole_frames}
use eng_project.RtAudio.Sender.{bufsize}

pub data Event : Type 0 where
  socket : Event
  close : Event
  play : List ℕ → Event
  perror : String → Event
  cerr : String → Event

-- `recvfrom` stores at most BUFSIZE bytes of a datagram.
abbrev pub stored : Received → List ℕ
stored r = take bufsize (payload r)

-- `while (true)`: what `recvfrom` does in each round so far.
unfoldable pub receive_loop : List Received → List Event
receive_loop [] = []
receive_loop (r ∷ rs) =
    (if is_pos (count r) then play (whole_frames (stored r)) ∷ [] else []) ++ receive_loop rs

pub data Main : Type 0 where
  ended : (code : ℕ) → List Event → Main
  receiving : List Event → Main

unfoldable pub main : (sockfd bound : ℤ) → (playback_opens : Bool) → List Received → Main
unfolding receive_loop
main sockfd bound playback_opens rounds =
    if is_neg sockfd
    then ended 1 (perror "Socket creation failed" ∷ [])
    else if is_neg bound
    then ended 1 (socket ∷ perror "Bind failed" ∷ close ∷ [])
    else if playback_opens
    then receiving (socket ∷ receive_loop rounds)
    else ended 1 (socket ∷ cerr "Error opening playback device: " ∷ [])

-- ===== src/IpCheck/Sound.antt =====
-- IPcheck/IPcheckstream.cpp, `captureAndSend` and `receiveAndPlay`. What ALSA and `recv` return is
-- not looked at. Buffers are 2048 samples of 2 bytes.
use eng_project.Base.{ℕ, List, [], ◌∷◌, ◌++◌, map, Received, payload}
use eng_project.OnlineAv.Fragment.{overlay}
use eng_project.IpCheck.Peers.{Text}

abbrev pub buffer_size : ℕ
buffer_size = 4096

pub data Event : Type 0 where
  sendto : (peer_ip : Text) → List ℕ → Event
  play : List ℕ → Event

-- A round of `captureAndSend`: the bytes that `snd_pcm_readi` stores, if any, and the set when the
-- lock is taken.
pub record Round : Type 0 where
  pub stored : List ℕ
  pub peer_addresses : List Text

unfoldable pub capture_and_send : List ℕ → List Round → List Event
capture_and_send buffer [] = []
capture_and_send buffer (r ∷ rs) =
    let filled = overlay buffer_size r.stored buffer in
    map (λ (peer_ip : Text). sendto peer_ip filled) r.peer_addresses ++ capture_and_send filled rs

unfoldable pub receive_and_play : List ℕ → List Received → List Event
receive_and_play buffer [] = []
receive_and_play buffer (r ∷ rs) =
    let filled = overlay buffer_size (payload r) buffer in play filled ∷ receive_and_play filled rs

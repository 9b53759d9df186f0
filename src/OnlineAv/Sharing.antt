-- ===== src/OnlineAv/Sharing.antt =====
-- Online_AV/Online_AV.cpp: `LookForPeers`, `AudioPlayback` and `VideoPlayback` run side by side and
-- receive on one socket. The system hands each datagram to one of them, whichever it chooses.
pub mod Stolen
use eng_project.Base.{
  ℕ, Bool, true, false, Option, none, some, List, [], ◌∷◌, ◌++◌, ℤ, Received, got, ◌>>=◌,
}
use eng_project.OnlineAv.Net.{SockaddrIn, Event}
use eng_project.OnlineAv.Fragment.{VideoFragment}
use eng_project.OnlineAv.Peers.{look_round}
use eng_project.OnlineAv.Audio
use eng_project.OnlineAv.Audio.{Speaker}
use eng_project.OnlineAv.VideoPlay
use eng_project.OnlineAv.VideoPlay.{Player}

pub data Reader : Type 0 where
  look_for_peers audio_playback video_playback : Reader

-- A datagram, its sender, the thread that gets it, and the results of `snd_pcm_writei` and `waitKey`
-- if the thread makes these calls.
pub record Datagram : Type 0 where
  pub bytes : List ℕ
  pub sender : SockaddrIn
  pub reader : Reader
  pub written : ℤ
  pub key : ℤ

-- The state of the three threads.
pub record Program (Image : Type 0) : Type 0 where
  pub peer_list : List SockaddrIn
  pub speaker : Speaker
  pub player : Player Image

module _ {Image : Type 0} (imdecode : List ℕ → Option Image)
    (sort : List VideoFragment → List VideoFragment) where
  unfoldable pub receive_by : Program Image → Datagram → Reader → Option (Program Image)
  receive_by p d look_for_peers = some (record p {
    peer_list =
        (look_round p.peer_list
          (record { received = got d.bytes; peer_addr = d.sender })).peer_list;
  })
  receive_by p d audio_playback = some (record p {
    speaker = Audio.play_round p.speaker (record { received = got d.bytes; written = d.written });
  })
  receive_by p d video_playback =
      VideoPlay.play_round imdecode sort p.player (record { received = got d.bytes; key = d.key })
      >>= λ player. some (record p { player = player })

  unfoldable pub receive : Program Image → Datagram → Option (Program Image)
  receive p d = receive_by p d d.reader

  -- The datagrams that come in while `running` is set.
  unfoldable pub receive_all : Program Image → List Datagram → Option (Program Image)
  receive_all p [] = some p
  receive_all p (d ∷ ds) = elim p.player.running [
    | true ↦ receive p d >>= λ p'. receive_all p' ds
    | false ↦ some p
  ]

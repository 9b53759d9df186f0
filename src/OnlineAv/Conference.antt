-- ===== src/OnlineAv/Conference.antt =====
-- Online_AV/Online_AV.cpp: discovery, sender and receiver of a frame put together.
pub mod Video
use mathlib.Core.List.Perm
use mathlib.Core.List.{map-append}
use eng_project.Base.{
  ℕ, ◌^◌, ◌<◌, ◌≡◌, refl, ap, ◌∙◌, true, Option, some, List, [], ◌∷◌, ◌++◌, map, ℤ, got, length,
}
use eng_project.OnlineAv.Net.{
  SockaddrIn, Sendto, mail, mail-append, send_to_all, mail-send_to_all, occurs,
}
use eng_project.OnlineAv.Fragment.{VideoFragment, to_image}
use eng_project.OnlineAv.Peers.{Hail, look_for_peers}
use eng_project.OnlineAv.Peers.Discovery.{hailed, occurs-look_for_peers}
use eng_project.OnlineAv.VideoSend.{fragments, send_fragments, send_frame, encoded}
use eng_project.OnlineAv.VideoSend.Cover.{Fits}
use eng_project.OnlineAv.VideoSend.Frames.{early, final, fragments-split}
use eng_project.OnlineAv.VideoPlay.{IsSort, Player, Arrival, at, play_video}
use eng_project.OnlineAv.VideoPlay.Collect.{arrives}
use eng_project.OnlineAv.VideoPlay.Roundtrip.{on_screen, video-roundtrip}

-- The datagrams, taken in by `recv` in this order.
abbrev pub delivered : ℤ → List (List ℕ) → List Arrival
delivered key = map λ d. record { received = got d; key = key }

pub mail-send_fragments :
    (sendto : Sendto) (a : SockaddrIn) (peers : ℕ → List SockaddrIn) (fs : List VideoFragment)
    → ((i : ℕ) → occurs a (peers i) ≡ 1)
    → mail a (send_fragments sendto peers fs) ≡ map to_image fs
unfolding send_fragments mail
mail-send_fragments sendto a peers [] once = refl
mail-send_fragments sendto a peers (f ∷ fs) once =
    mail-append a (send_to_all sendto "Transmission error: " (to_image f) (peers f.fragment_i))
      (send_fragments sendto peers fs)
    ∙ rw (
      mail-send_to_all sendto "Transmission error: " (to_image f) a (peers f.fragment_i),
      once f.fragment_i,
      mail-send_fragments sendto a peers fs once,
    )

pub delivered-map :
    (key : ℤ) (fs : List VideoFragment) → delivered key (map to_image fs) ≡ map (arrives key) fs
delivered-map key [] = refl
delivered-map key (f ∷ fs) = ap (◌∷◌ (arrives key f)) (delivered-map key fs)

-- The frame that a sender puts on the wire.
abbrev pub frame_mail : Sendto → SockaddrIn → List SockaddrIn → ℕ → List ℕ → List (List ℕ)
frame_mail sendto a peers seq enc = mail a (send_frame sendto seq (encoded enc (λ _. peers))).events

delivered-frame_mail :
    (sendto : Sendto) (key : ℤ) (a : SockaddrIn) (peers : List SockaddrIn) (seq : ℕ) (enc : List ℕ)
    → Fits enc
    → 0 < length enc
    → occurs a peers ≡ 1
    → delivered key (frame_mail sendto a peers seq enc)
      ≡ map (arrives key) (early seq enc) ++ arrives key (final seq enc) ∷ []
unfolding send_frame
delivered-frame_mail sendto key a peers seq enc fits pos once =
    rw
      (
        mail-send_fragments sendto a (λ _. peers) (fragments seq enc) (λ _. once),
        delivered-map key (fragments seq enc),
        fragments-split seq enc fits pos,
      )
      (map-append (arrives key) (early seq enc) (final seq enc ∷ []))

-- A peer that has greeted gets the picture: if the datagrams that `LookForPeers` took in, starting
-- with no peers, hold a greeting from `a`, then what `VideoRecandSend` sends to `a` of an encoded
-- frame (not empty, shorter than 2 ^ 32 bytes, peers unchanged meanwhile, whatever `sendto`
-- returns), received in that order by a running player that holds nothing of frame `seq`, makes
-- the player join the encoded bytes and show what they decode to.
pub greeted_peer-sees_frame :
    {Image : Type 0} (imdecode : List ℕ → Option Image)
    (sort : List VideoFragment → List VideoFragment) (s : IsSort sort) (sendto : Sendto)
    (hails : List Hail) (a : SockaddrIn) (seq : ℕ) (enc : List ℕ) (p : Player Image) (key : ℤ)
    → hailed a hails ≡ true
    → seq < 2 ^ 32
    → Fits enc
    → 0 < length enc
    → p.running ≡ true
    → at seq p.fragment_buffer ≡ []
    → (q : Player Image) × (play_video imdecode sort p
          (delivered key (frame_mail sendto a (look_for_peers [] hails).peer_list seq enc))
        ≡ some q)
      × (q.reassembled_frame ≡ enc)
      × (q.log ≡ p.log ++ on_screen (imdecode enc))
unfolding occurs
greeted_peer-sees_frame imdecode sort s sendto hails a seq enc p key greeted seq_fits fits pos run
      new =
    let (q, plays, bytes, log, _, _) =
      video-roundtrip imdecode sort seq enc seq_fits fits pos (early seq enc) Perm.rfl s p key run
        new in
    (q, rw (delivered-frame_mail sendto key a peers seq enc fits pos once) plays, bytes, log)
  where
    peers : List SockaddrIn
    peers = (look_for_peers [] hails).peer_list

    once : occurs a peers ≡ 1
    once = occurs-look_for_peers a [] hails ∙ rw greeted

-- ===== src/OnlineAv/Conference/Video.antt =====
-- A whole video, of which the network may lose datagrams: what `VideoRecandSend` sends frame after
-- frame, and what `VideoPlayback` shows of it.
use mathlib.Core.List.{flatten, map-append}
use eng_project.Base.{
  ℕ, suc, ◌+◌, ◌^◌, ◌<◌, ◌≤◌, ◌≡◌, refl, sym, ap, ◌∙◌, Bool, true, false, Option, some, List, [],
  ◌∷◌, ◌++◌, append-nil, append_assoc, map, arith, if◌then◌else◌, ℤ, length, All,
}
use eng_project.OnlineAv.Net.{SockaddrIn, Sendto, mail, mail-append, occurs}
use eng_project.OnlineAv.Fragment.{VideoFragment, to_image}
use eng_project.OnlineAv.VideoSend.{
  total_fragments, fragments, Capture, no_frame, encode_failed, encoded, send_frame, send_video,
}
use eng_project.OnlineAv.VideoSend.Cover.{Fits}
use eng_project.OnlineAv.VideoPlay.{IsSort, Screen, Player, play_video, is_escape}
use eng_project.OnlineAv.VideoPlay.Collect.{arrives, play_video-nil}
use eng_project.OnlineAv.VideoPlay.Parts.{play_video-append}
use eng_project.OnlineAv.VideoPlay.Roundtrip.{on_screen}
use eng_project.Base.Loss.{survive, loses, survive-map}
use eng_project.OnlineAv.VideoPlay.Lossy.{IsClean, frame-seen}
use eng_project.OnlineAv.Conference.{delivered, mail-send_fragments, delivered-map}

-- A round of the camera, and which of the datagrams for the peer get through (all, where the list
-- ends).
pub record Shot : Type 0 where
  pub capture : Capture
  pub kept : List Bool

-- What gets through to `a` of a video whose first frame has number `seq`.
unfoldable pub network : Sendto → SockaddrIn → (seq : ℕ) → List Shot → List (List ℕ)
network sendto a seq [] = []
network sendto a seq (s ∷ shots) =
    let sent = send_frame sendto seq s.capture in
    survive s.kept (mail a sent.events) ++ network sendto a sent.next_seq shots

abbrev pub captures : List Shot → List Capture
captures = map (λ (s : Shot). s.capture)

-- If nothing is lost, it is all that the thread sends.
network_lossless :
    (sendto : Sendto) (a : SockaddrIn) (seq : ℕ) (shots : List Shot)
    → All (λ s. s.kept ≡ []) shots
    → network sendto a seq shots ≡ mail a (send_video sendto seq (captures shots)).events
unfolding network send_video mail
network_lossless sendto a seq [] h = refl
network_lossless sendto a seq (s ∷ shots) h =
    let sent = send_frame sendto seq s.capture in
    rw h.0 (
      ap (◌++◌ (mail a sent.events)) (network_lossless sendto a sent.next_seq shots h.1)
      ∙ sym (mail-append a sent.events _))

-- A frame that can be sent to `a`, who is in the list whenever a fragment is sent.
abbrev pub Reaches : SockaddrIn → Capture → Type 0
Reaches a no_frame = Unit {0}
Reaches a encode_failed = Unit {0}
Reaches a (encoded enc peers) = Fits enc × (0 < length enc) × ((i : ℕ) → occurs a (peers i) ≡ 1)

module _ {Image : Type 0} (imdecode : List ℕ → Option Image) where
  -- What is to be seen of a frame: what it decodes to, or nothing if a fragment is lost.
  abbrev pub seen : Capture → List Bool → List (Screen Image)
  seen no_frame kept = []
  seen encode_failed kept = []
  seen (encoded enc peers) kept =
      if loses kept (total_fragments enc) then [] else on_screen (imdecode enc)

  abbrev pub all_seen : List Shot → List (Screen Image)
  all_seen shots = flatten (map (λ (s : Shot). seen s.capture s.kept) shots)

module _ {Image : Type 0} (imdecode : List ℕ → Option Image)
    (sort : List VideoFragment → List VideoFragment) (s : IsSort sort) (key : ℤ)
    (stay : is_escape key ≡ false) where
  module _ (sendto : Sendto) (a : SockaddrIn) where
    delivered-frame :
        (seq : ℕ) (enc : List ℕ) (peers : ℕ → List SockaddrIn) (kept : List Bool)
        → ((i : ℕ) → occurs a (peers i) ≡ 1)
        → delivered key (survive kept (mail a (send_frame sendto seq (encoded enc peers)).events))
          ≡ map (arrives key) (survive kept (fragments seq enc))
    unfolding send_frame
    delivered-frame seq enc peers kept once = rw (
      mail-send_fragments sendto a peers (fragments seq enc) once,
      survive-map to_image kept (fragments seq enc),
      delivered-map key (survive kept (fragments seq enc)),
    )

    nothing :
        (kept : List Bool) (p : Player Image)
        → play_video imdecode sort p (delivered key (survive kept [])) ≡ some p
    nothing [] p = play_video-nil imdecode sort p
    nothing (true ∷ kept) p = play_video-nil imdecode sort p
    nothing (false ∷ kept) p = play_video-nil imdecode sort p

    -- One round of the camera; the number of the next frame is at most one higher.
    shot-seen :
        (seq : ℕ) (c : Capture) (kept : List Bool) (p : Player Image)
        → suc seq < 2 ^ 32
        → Reaches a c
        → p.running ≡ true
        → IsClean seq p
        → (q : Player Image) × (play_video imdecode sort p
              (delivered key (survive kept (mail a (send_frame sendto seq c).events)))
            ≡ some q)
          × (q.running ≡ true)
          × (q.log ≡ p.log ++ seen imdecode c kept)
          × IsClean (send_frame sendto seq c).next_seq q
          × ((send_frame sendto seq c).next_seq ≤ suc seq)
    unfolding send_frame mail
    shot-seen seq no_frame kept p small reaches run clean =
        (p, nothing kept p, run, sym (append-nil p.log), clean, omega arith)
    shot-seen seq encode_failed kept p small reaches run clean =
        (p, nothing kept p, run, sym (append-nil p.log), clean, omega arith)
    shot-seen seq (encoded enc peers) kept p small (fits, pos, once) run clean =
        let (q, plays, runs, log, after) =
          frame-seen imdecode sort s key stay seq enc kept p (omega arith) fits pos run clean in
        (
          q,
          rw (delivered-frame seq enc peers kept once) plays,
          runs,
          log,
          (λ k above. after k (omega arith)),
          omega arith,
        )

    -- What is lost costs its own frame only: let `VideoRecandSend` make rounds, where `seq` is the
    -- number of the first frame and `seq` plus the number of rounds is below 2 ^ 32, in which it fails to read or to encode, or sends
    -- a frame (not empty, shorter than 2 ^ 32 bytes) with the peer `a` in the list at each fragment,
    -- whatever `sendto` returns; let any datagrams for `a` be lost and the others arrive in order at
    -- a running player that holds nothing of frame `seq` or a later one, where Escape is not
    -- pressed and `std::sort` sorts. Then the player runs into no undefined behaviour, goes on running, and shows, in
    -- order, what each frame decodes to of which no fragment is lost, and nothing else.
    pub video-seen :
        (shots : List Shot) (seq : ℕ) (p : Player Image)
        → All (λ (s : Shot). Reaches a s.capture) shots
        → seq + length shots < 2 ^ 32
        → p.running ≡ true
        → IsClean seq p
        → (q : Player Image) × (play_video imdecode sort p
              (delivered key (network sendto a seq shots))
            ≡ some q)
          × (q.log ≡ p.log ++ all_seen imdecode shots)
          × (q.running ≡ true)
    unfolding network flatten
    video-seen [] seq p h small run clean =
        (p, play_video-nil imdecode sort p, sym (append-nil p.log), run)
    video-seen (x ∷ shots) seq p h small run clean =
        let (q, plays, runs, log, after, bound) =
          shot-seen seq x.capture x.kept p (omega arith) h.0 run clean in
        let (r, plays_on, log_on, still) =
          video-seen shots (send_frame sendto seq x.capture).next_seq q h.1 (omega arith) runs
            after in
        (
          r,
          ap (play_video imdecode sort p)
                (map-append _ (survive x.kept (mail a (send_frame sendto seq x.capture).events)) _)
              ∙ (play_video-append imdecode sort _ _ p q plays ∙ plays_on),
          log_on
              ∙ (ap (λ (l : List (Screen Image)). l ++ all_seen imdecode shots) log
                  ∙ append_assoc p.log (seen imdecode x.capture x.kept) (all_seen imdecode shots)),
          still,
        )

-- ===== src/OnlineAv/Sharing/Stolen.antt =====
-- What becomes of a frame if another thread gets one of its fragments.
use eng_project.Base.{
  ℕ, suc, ◌+◌, ◌^◌, ◌<◌, ◌≡◌, refl, ap, ◌∙◌, Bool, true, false, Option, some, List, [], ◌∷◌, Perm,
  arith, ◌==◌, length, length-append, length-perm, All, All-perm, ◌>>=◌,
}
use eng_project.OnlineAv.Fragment.{VideoFragment, to_image}
use eng_project.OnlineAv.VideoSend.{fragments, total_fragments}
use eng_project.OnlineAv.VideoSend.Cover.{Fits, Piece, Piece-prop, All-Own}
use eng_project.OnlineAv.VideoSend.Frames.{fragments-Piece, length-fragments}
use eng_project.OnlineAv.VideoPlay
use eng_project.OnlineAv.VideoPlay.{Player, at, push_back}
use eng_project.OnlineAv.VideoPlay.Collect.{
  push_all, at-push_all, at-push_back_self, play_round-waits,
}
use eng_project.OnlineAv.Sharing.{
  Reader, look_for_peers, audio_playback, video_playback, Datagram, Program, receive_by, receive,
  receive_all,
}

-- The datagrams carry just these fragments.
abbrev pub Carry : List Datagram → List VideoFragment → Type 0
Carry [] [] = Unit
Carry (d ∷ ds) (f ∷ fs) = (d.bytes ≡ to_image f) × Carry ds fs
Carry _ _ = ⊥

abbrev pub keep : Reader → VideoFragment → List VideoFragment → List VideoFragment
keep look_for_peers f fs = fs
keep audio_playback f fs = fs
keep video_playback f fs = f ∷ fs

-- The fragments that `VideoPlayback` gets.
abbrev pub seen : List Datagram → List VideoFragment → List VideoFragment
seen (d ∷ ds) (f ∷ fs) = keep d.reader f (seen ds fs)
seen _ _ = []

All-seen :
    (P : VideoFragment → Type 0) (ds : List Datagram) (fs : List VideoFragment)
    → All P fs
    → All P (seen ds fs)
All-seen P [] fs h = tt
All-seen P (d ∷ ds) [] h = tt
All-seen P (d ∷ ds) (f ∷ fs) h = All-keep d.reader (All-seen P ds fs h.1)
  where
    All-keep : (r : Reader) → All P (seen ds fs) → All P (keep r f (seen ds fs))
    All-keep look_for_peers k = k
    All-keep audio_playback k = k
    All-keep video_playback k = (h.0, k)

module _ {Image : Type 0} (imdecode : List ℕ → Option Image)
    (sort : List VideoFragment → List VideoFragment) (seq total : ℕ) where
  incomplete :
      (p : Player Image) (f : VideoFragment) (n : ℕ)
      → Piece seq total f
      → length (at seq p.fragment_buffer) + suc n < total
      → (length (at f.frame_seq (push_back f p.fragment_buffer)) == f.total_fragments) ≡ false
  incomplete p f n piece few =
      let grown : length (at f.frame_seq (push_back f p.fragment_buffer))
          ≡ length (at seq p.fragment_buffer) + 1 =
        ap (λ (k : ℕ). length (at k (push_back f p.fragment_buffer))) piece.own
        ∙ (ap length (at-push_back_self seq f p.fragment_buffer piece.own)
            ∙ length-append (at seq p.fragment_buffer) (f ∷ [])) in
      ground (arith, piece.share)

  abbrev stored : Program Image → List VideoFragment → Player Image
  stored p fs = record p.player { fragment_buffer = push_all fs p.player.fragment_buffer }

  one_kept :
      (r : Reader) (p : Program Image) (d : Datagram) (f : VideoFragment)
      (more : List VideoFragment)
      → d.bytes ≡ to_image f
      → Piece seq total f
      → length (at seq p.player.fragment_buffer) + length (keep r f more) < total
      → (q : Program Image) × (receive_by imdecode sort p d r ≡ some q)
        × (q.player ≡ stored p (keep r f []))
  unfolding receive_by push_all
  one_kept look_for_peers p d f more e piece few = (_, refl, refl)
  one_kept audio_playback p d f more e piece few = (_, refl, refl)
  one_kept video_playback p d f more e piece few =
      let waits =
        play_round-waits imdecode sort p.player d.key f piece.wire
          (incomplete p.player f (length more) piece few) in
      (record p { player = stored p (f ∷ []) }, rw (e, waits) refl, refl)

  keep-push_all :
      (r : Reader) (f : VideoFragment) (fs : List VideoFragment) (m : VideoPlay.Buffer)
      → push_all fs (push_all (keep r f []) m) ≡ push_all (keep r f fs) m
  unfolding push_all
  keep-push_all look_for_peers f fs m = refl
  keep-push_all audio_playback f fs m = refl
  keep-push_all video_playback f fs m = refl

  keep-at :
      (r : Reader) (f : VideoFragment) (fs : List VideoFragment) (m : VideoPlay.Buffer)
      → Piece seq total f
      → length (at seq (push_all (keep r f []) m)) + length fs
        ≡ length (at seq m) + length (keep r f fs)
  unfolding push_all
  keep-at look_for_peers f fs m piece = refl
  keep-at audio_playback f fs m piece = refl
  keep-at video_playback f fs m piece =
      rw (at-push_back_self seq f m piece.own) (omega (arith, length-append (at seq m) (f ∷ [])))

  -- Too few fragments come to `VideoPlayback`: they are stored, and nothing else happens there.
  all_kept :
      (p : Program Image) (ds : List Datagram) (fs : List VideoFragment)
      → Carry ds fs
      → All (Piece seq total) fs
      → p.player.running ≡ true
      → length (at seq p.player.fragment_buffer) + length (seen ds fs) < total
      → (q : Program Image) × (receive_all imdecode sort p ds ≡ some q)
        × (q.player ≡ stored p (seen ds fs))
  unfolding receive_all receive push_all
  all_kept p [] [] c h run few = (p, refl, refl)
  all_kept p [] (f ∷ fs) c h run few = absurd c
  all_kept p (d ∷ ds) [] c h run few = absurd c
  all_kept p (d ∷ ds) (f ∷ fs) c h run few =
      let (q, got_one, same) = one_kept d.reader p d f (seen ds fs) c.0 h.0 few in
      let m : VideoPlay.Buffer = p.player.fragment_buffer in
      let (t, got_rest, after) =
        all_kept q ds fs c.1 h.1 (ap (λ (x : Player Image). x.running) same ∙ run)
          (rw same (rw (keep-at d.reader f (seen ds fs) m h.0) few)) in
      (
        t,
        ap
              (λ (b : Bool). elim b [
                | true ↦
                    receive_by imdecode sort p d d.reader >>= λ p'. receive_all imdecode sort p' ds
                | false ↦ some p
              ])
              run
            ∙ rw got_one got_rest,
        after
            ∙ (ap
                  (λ (x : Player Image). record x {
                    fragment_buffer = push_all (seen ds fs) x.fragment_buffer;
                  })
                  same
                ∙ ap (λ (b : VideoPlay.Buffer). record p.player { fragment_buffer = b })
                    (keep-push_all d.reader f (seen ds fs) m)),
      )

-- A frame of which another thread gets a fragment is lost: if each fragment of a frame (the frame
-- shorter than 2 ^ 32 bytes) comes once, in any order, and `LookForPeers` or `AudioPlayback` gets at
-- least one of these datagrams, then a running player that held nothing of frame `seq` shows
-- nothing, and the fragments that it got stay in its buffer, although no datagram was lost.
pub stolen_fragment-lost :
    {Image : Type 0} (imdecode : List ℕ → Option Image)
    (sort : List VideoFragment → List VideoFragment) (seq : ℕ) (enc : List ℕ) (p : Program Image)
    (ds : List Datagram) (fs : List VideoFragment)
    → seq < 2 ^ 32
    → Fits enc
    → Perm fs (fragments seq enc)
    → Carry ds fs
    → length (seen ds fs) < length fs
    → p.player.running ≡ true
    → at seq p.player.fragment_buffer ≡ []
    → (q : Program Image) × (receive_all imdecode sort p ds ≡ some q)
      × (q.player.running ≡ true)
      × (q.player.log ≡ p.player.log)
      × (at seq q.player.fragment_buffer ≡ seen ds fs)
stolen_fragment-lost {Image} imdecode sort seq enc p ds fs seq_fits fits order carry stolen run
      new =
    let total : ℕ = total_fragments enc in
    let pieces = All-perm (Piece-prop seq total) order (fragments-Piece seq enc fits seq_fits) in
    let few : length (at seq p.player.fragment_buffer) + length (seen ds fs) < total =
      rw new (omega (arith, length-perm order, length-fragments seq enc)) in
    let (q, done, same) = all_kept imdecode sort seq total p ds fs carry pieces run few in
    (
      q,
      done,
      ap (λ (x : Player Image). x.running) same ∙ run,
      ap (λ (x : Player Image). x.log) same,
      ap (λ (x : Player Image). at seq x.fragment_buffer) same
          ∙ (at-push_all seq (seen ds fs) p.player.fragment_buffer
                (All-Own seq total (seen ds fs) (All-seen (Piece seq total) ds fs pieces))
              ∙ rw new refl),
    )

-- ===== src/OnlineAv/VideoPlay/Lossy.antt =====
-- A frame of which fragments may be lost on the way.
use mathlib.Core.List.{map-append}
use mathlib.Core.List.Perm
use eng_project.Base.{
  ℕ, suc, ◌+◌, ◌^◌, ◌<◌, ◌≤◌, ◌≡◌, refl, sym, ap, ◌∙◌, Bool, Bool-cases, inl, inr, true, false,
  Option, some, List, [], ◌∷◌, ◌++◌, append-nil, map, arith, ◌==◌, if◌then◌else◌, ℤ, length,
  length-append, All,
}
use eng_project.Base.Loss.{survive, loses, survive_whole, length-survive-lt, All-survive}
use eng_project.OnlineAv.Fragment.{VideoFragment}
use eng_project.OnlineAv.VideoSend.{total_fragments, fragments}
use eng_project.OnlineAv.VideoSend.Cover.{Fits, Piece, All-Own}
use eng_project.OnlineAv.VideoSend.Frames.{
  early, final, fragments-split, fragments-Piece, length-fragments,
}
use eng_project.OnlineAv.VideoPlay.{IsSort, Player, at, push_back, play_video, is_escape}
use eng_project.OnlineAv.VideoPlay.Collect.{
  push_all, at-push_back_self, at-push_all_ne, arrives, play_round-waits, play_video-nil,
  play_video-cons,
}
use eng_project.OnlineAv.VideoPlay.Roundtrip.{on_screen, video-roundtrip}

module _ {Image : Type 0} (imdecode : List ℕ → Option Image)
    (sort : List VideoFragment → List VideoFragment) (key : ℤ) where
  -- Fewer fragments than a frame has are stored, flagged or not.
  play_video-partial :
      (seq total : ℕ) (fs : List VideoFragment) (p : Player Image)
      → p.running ≡ true
      → All (Piece seq total) fs
      → length (at seq p.fragment_buffer) + length fs < total
      → play_video imdecode sort p (map (arrives key) fs)
        ≡ some (record p { fragment_buffer = push_all fs p.fragment_buffer })
  unfolding push_all
  play_video-partial seq total [] p run h few = play_video-nil imdecode sort p
  play_video-partial seq total (f ∷ fs) p run h few =
      let stored = at-push_back_self seq f p.fragment_buffer h.0.own in
      let one_more : length (at seq (push_back f p.fragment_buffer))
          ≡ length (at seq p.fragment_buffer) + 1 =
        ap length stored ∙ length-append (at seq p.fragment_buffer) (f ∷ []) in
      let counted : length (at f.frame_seq (push_back f p.fragment_buffer))
          ≡ length (at seq p.fragment_buffer) + 1 =
        ap (λ (k : ℕ). length (at k (push_back f p.fragment_buffer))) h.0.own ∙ one_more in
      let waits : (length (at f.frame_seq (push_back f p.fragment_buffer)) == f.total_fragments)
          ≡ false =
        ground (arith, h.0.share) in
      play_video-cons imdecode sort p (arrives key f) (map (arrives key) fs) run
      ∙ rw (play_round-waits imdecode sort p key f h.0.wire waits) (
          play_video-partial seq total fs
            (record p { fragment_buffer = push_back f p.fragment_buffer }) run h.1 (omega arith))

  -- A frame of which something is lost is not shown, and touches no other.
  play_video-lossy :
      (seq : ℕ) (enc : List ℕ) (kept : List Bool) (p : Player Image)
      → seq < 2 ^ 32
      → Fits enc
      → p.running ≡ true
      → at seq p.fragment_buffer ≡ []
      → loses kept (total_fragments enc) ≡ true
      → (q : Player Image) × (play_video imdecode sort p
            (map (arrives key) (survive kept (fragments seq enc)))
          ≡ some q)
        × (q.running ≡ true)
        × (q.log ≡ p.log)
        × ((k : ℕ) → (seq == k) ≡ false → at k q.fragment_buffer ≡ at k p.fragment_buffer)
  play_video-lossy seq enc kept p seq_fits fits run new gap =
      let fs : List VideoFragment = survive kept (fragments seq enc) in
      let pieces : All (Piece seq (total_fragments enc)) fs =
        All-survive _ kept (fragments seq enc) (fragments-Piece seq enc fits seq_fits) in
      let fewer : length fs < length (fragments seq enc) =
        length-survive-lt kept (fragments seq enc) (rw (length-fragments seq enc) gap) in
      let nothing_yet : length (at seq p.fragment_buffer) ≡ 0 = ap length new in
      (
        record p { fragment_buffer = push_all fs p.fragment_buffer },
        play_video-partial seq (total_fragments enc) fs p run pieces
            (omega (arith, length-fragments seq enc)),
        run,
        refl,
        λ k other.
            at-push_all_ne seq fs p.fragment_buffer k (All-Own seq (total_fragments enc) fs pieces)
              other,
      )

-- A player that holds nothing of the frames from `seq` on.
abbrev pub IsClean : {Image : Type 0} → ℕ → Player Image → Type 0
IsClean seq p = (k : ℕ) → seq ≤ k → at k p.fragment_buffer ≡ []

module _ {Image : Type 0} (imdecode : List ℕ → Option Image)
    (sort : List VideoFragment → List VideoFragment) (s : IsSort sort) (key : ℤ)
    (stay : is_escape key ≡ false) where
  -- One frame.
  pub frame-seen :
      (seq : ℕ) (enc : List ℕ) (kept : List Bool) (p : Player Image)
      → seq < 2 ^ 32
      → Fits enc
      → 0 < length enc
      → p.running ≡ true
      → IsClean seq p
      → (q : Player Image) × (play_video imdecode sort p
            (map (arrives key) (survive kept (fragments seq enc)))
          ≡ some q)
        × (q.running ≡ true)
        × (q.log
            ≡ p.log ++ (if loses kept (total_fragments enc) then [] else on_screen (imdecode enc)))
        × IsClean (suc seq) q
  frame-seen seq enc kept p seq_fits fits pos run clean =
      let new = clean seq (omega arith) in
      elim (Bool-cases (loses kept (total_fragments enc))) [
        | inl gap ↦
            let (q, plays, runs, log, others) =
              play_video-lossy imdecode sort key seq enc kept p seq_fits fits run new gap in
            (
              q,
              plays,
              runs,
              rw gap (log ∙ sym (append-nil p.log)),
              λ k above. others k (ground arith) ∙ clean k (omega arith),
            )
        | inr whole ↦
            let (q, plays, bytes, log, others, runs) =
              video-roundtrip imdecode sort seq enc seq_fits fits pos (early seq enc) Perm.rfl s p
                key run new in
            let all : survive kept (fragments seq enc) ≡ early seq enc ++ final seq enc ∷ [] =
              survive_whole kept (fragments seq enc) (rw (length-fragments seq enc) whole)
              ∙ fragments-split seq enc fits pos in
            (
              q,
              rw (all, map-append (arrives key) (early seq enc) (final seq enc ∷ [])) plays,
              runs stay,
              rw whole log,
              λ k above. others k ∙ clean k (omega arith),
            )
      ]

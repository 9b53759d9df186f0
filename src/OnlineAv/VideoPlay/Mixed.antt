-- ===== src/OnlineAv/VideoPlay/Mixed.antt =====
-- `fragment_buffer` of `VideoPlayback` goes by `frame_seq` alone, whoever sent the fragment.
use eng_project.Base.{
  ℕ, ◌+◌, ◌^◌, ◌<◌, ◌≡◌, ◌≢◌, refl, ap, ◌∙◌, true, false, Option, some, List, [], ◌∷◌, ◌++◌,
  append_assoc, map, Perm, arith, ℤ, length, length-append, length-perm, All, All-left, All-right,
  All-append, All-perm,
}
use eng_project.OnlineAv.Fragment.{VideoFragment}
use eng_project.OnlineAv.VideoSend.{total_fragments}
use eng_project.OnlineAv.VideoSend.Cover.{Fits, Own-prop, Own, Piece-Own}
use eng_project.OnlineAv.VideoSend.Frames.{
  early, final, early-Own, final-Piece, early-not_last, length-early,
}
use eng_project.OnlineAv.VideoPlay.{Buffer, Player, at, push_back, play_video}
use eng_project.OnlineAv.VideoPlay.Collect.{
  push_all, at-through, arrives, play_video-nil, play_video-waits,
}

module _ {Image : Type 0} (imdecode : List ℕ → Option Image)
    (sort : List VideoFragment → List VideoFragment) (seq : ℕ) (a b : List ℕ)
    (seq_fits : seq < 2 ^ 32) (a_fits : Fits a) (b_fits : Fits b) (a_pos : 0 < length a)
    (b_pos : 0 < length b) (xs ys : List VideoFragment)
    (order : Perm (xs ++ ys) (early seq a ++ early seq b)) where
  owned : All (Own seq) (xs ++ ys)
  owned = All-perm (Own-prop seq) order (
      All-append _ (early seq a) (early seq b) (early-Own seq a a_fits seq_fits)
        (early-Own seq b b_fits seq_fits))

  unflagged : All (λ f. f.last_fragment ≡ false) (xs ++ ys)
  unflagged =
      All-perm (λ f. hlevel) order
        (All-append _ (early seq a) (early seq b) (early-not_last seq a a_fits a_pos)
          (early-not_last seq b b_fits b_pos))

  all_early : length xs + length ys + 2 ≡ total_fragments a + total_fragments b
  all_early = omega (
    arith,
    length-append xs ys,
    length-perm order,
    length-append (early seq a) (early seq b),
    length-early seq a a_fits a_pos,
    length-early seq b b_fits b_pos,
  )

  -- Frames of two peers with one number `seq` lose each other (both shorter than 2 ^ 32 bytes and not
  -- empty): if each fragment of both comes once, the flagged one of `b` last of all, and when the
  -- flagged one of `a` comes there have not come just as many others as `a` has (so if `b` has begun
  -- and nothing of `a` is late), then a running player that held nothing of that number shows
  -- nothing, although both frames have come whole, and all their fragments stay in the buffer.
  pub mixed_frames-lost :
      (p : Player Image) (key : ℤ)
      → p.running ≡ true
      → at seq p.fragment_buffer ≡ []
      → length xs ≢ length (early seq a)
      → (q : Player Image) × (play_video imdecode sort p (
            map (arrives key) xs
            ++ arrives key (final seq a) ∷ (map (arrives key) ys ++ arrives key (final seq b) ∷ []))
          ≡ some q)
        × (q.running ≡ true)
        × (q.log ≡ p.log)
        × (at seq q.fragment_buffer ≡ xs ++ final seq a ∷ ys ++ final seq b ∷ [])
  mixed_frames-lost p key run new begun =
      let piece_a = final-Piece seq a a_fits seq_fits a_pos in
      let piece_b = final-Piece seq b b_fits seq_fits b_pos in
      let own_a = Piece-Own seq (total_fragments a) (final seq a) piece_a in
      let own_b = Piece-Own seq (total_fragments b) (final seq b) piece_b in
      let m : Buffer = push_back (final seq a) (push_all xs p.fragment_buffer) in
      let p' : Player Image = record p { fragment_buffer = m } in
      let held : at seq m ≡ xs ++ final seq a ∷ [] =
        at-through seq xs (final seq a) p.fragment_buffer (All-left _ xs ys owned) own_a.own
        ∙ ap (λ (l : List VideoFragment). l ++ xs ++ final seq a ∷ []) new in
      (
        record p { fragment_buffer = push_back (final seq b) (push_all ys m) },
        play_video-waits imdecode sort seq key xs (final seq a) p _ run (All-left _ xs ys owned)
              (All-left _ xs ys unflagged) own_a
              (λ e.
                begun
                  (omega (arith, e, ap length new, piece_a.share, length-early seq a a_fits a_pos)))
            ∙ (play_video-waits imdecode sort seq key ys (final seq b) p' [] run
                  (All-right _ xs ys owned) (All-right _ xs ys unflagged) own_b
                  (λ e. absurd (
                    omega (
                      arith,
                      e,
                      ap length held,
                      length-append xs (final seq a ∷ []),
                      piece_b.share,
                      all_early,
                      length-early seq a a_fits a_pos,
                    )))
                ∙ play_video-nil imdecode sort _),
        run,
        refl,
        at-through seq ys (final seq b) m (All-right _ xs ys owned) own_b.own
            ∙ rw held (
                ap (λ (l : List VideoFragment). l ++ final seq b ∷ [])
                  (append_assoc xs (final seq a ∷ []) ys)),
      )

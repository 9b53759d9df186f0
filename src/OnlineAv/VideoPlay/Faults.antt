-- ===== src/OnlineAv/VideoPlay/Faults.antt =====
-- Where `VideoPlayback` loses frames, and where it reads past the end of a fragment.
use mathlib.Core.List.{Pairwise-singleton}
use eng_project.Base.{
  ℕ, ◌+◌, ◌^◌, ◌<◌, ◌≡◌, ◌≢◌, refl, ◌∙◌, true, false, Option, none, some, List, [], ◌∷◌, ◌++◌,
  append_assoc, map, Perm, arith, ℤ, got, length, length-append, length-perm, All, All-left,
  All-right, All-perm,
}
use eng_project.OnlineAv.Fragment.{VideoFragment, recv_fragment}
use eng_project.OnlineAv.VideoSend.{total_fragments}
use eng_project.OnlineAv.VideoSend.Cover.{Fits, Own-prop, Own, Piece-Own}
use eng_project.OnlineAv.VideoSend.Frames.{
  early, final, early-Own, final-Piece, early-not_last, length-early,
}
use eng_project.OnlineAv.VideoPlay.{
  Buffer, IsSort, Player, at, push_back, reassemble, complete, store, play_round, play_video,
}
use eng_project.OnlineAv.VideoPlay.Order.{sorted-eq_of_perm}
use eng_project.OnlineAv.VideoPlay.Collect.{
  push_all, at-push_all, at-push_back_self, at-through, arrives, play_video-only_early,
  play_video-waits,
}

nothing_late : (ys : List VideoFragment) → length ys ≡ 0 → ys ≡ []
nothing_late [] e = refl
nothing_late (y ∷ ys) e = absurd (omega arith)

module _ {Image : Type 0} (imdecode : List ℕ → Option Image)
    (sort : List VideoFragment → List VideoFragment) where
  module _ (seq : ℕ) (enc : List ℕ) (seq_fits : seq < 2 ^ 32) (fits : Fits enc)
      (pos : 0 < length enc) (xs ys : List VideoFragment) (order : Perm (xs ++ ys) (early seq enc))
      (late : ys ≢ []) where
    pieces : All (Own seq) (xs ++ ys)
    pieces = All-perm (Own-prop seq) order (early-Own seq enc fits seq_fits)

    unflagged : All (λ f. f.last_fragment ≡ false) (xs ++ ys)
    unflagged = All-perm (λ f. hlevel) order (early-not_last seq enc fits pos)

    some_missing :
        (final seq enc).total_fragments ≡ total_fragments enc
        → 0 + (length xs + 1) ≢ (final seq enc).total_fragments
    some_missing share e = late (
        nothing_late ys (
          omega (
            arith,
            share,
            e,
            length-append xs ys,
            length-perm order,
            length-early seq enc fits pos,
          )))

    -- Reordering loses a frame: if the fragment flagged last comes before another fragment of the
    -- same frame (each fragment comes once, `xs` before the flagged one and `ys`, not empty, after
    -- it), then nothing is shown, although the whole frame has come, and all its fragments stay in
    -- the buffer.
    pub reordered_frame-lost :
        (p : Player Image) (key : ℤ)
        → p.running ≡ true
        → at seq p.fragment_buffer ≡ []
        → (q : Player Image) × (play_video imdecode sort p
              (map (arrives key) xs ++ arrives key (final seq enc) ∷ (map (arrives key) ys))
            ≡ some q)
          × (q.log ≡ p.log)
          × (at seq q.fragment_buffer ≡ xs ++ final seq enc ∷ ys)
    reordered_frame-lost p key run new =
        let piece = final-Piece seq enc fits seq_fits pos in
        let own = Piece-Own seq (total_fragments enc) (final seq enc) piece in
        let m : Buffer = push_back (final seq enc) (push_all xs p.fragment_buffer) in
        (
          record p { fragment_buffer = push_all ys m },
          play_video-waits imdecode sort seq key xs (final seq enc) p (map (arrives key) ys) run
                (All-left _ xs ys pieces) (All-left _ xs ys unflagged) own
                (rw new (some_missing piece.share))
              ∙ play_video-only_early imdecode sort seq key ys (record p { fragment_buffer = m })
                  run (All-right _ xs ys pieces) (All-right _ xs ys unflagged),
          refl,
          at-push_all seq ys m (All-right _ xs ys pieces)
              ∙ rw
                  (
                    at-through seq xs (final seq enc) p.fragment_buffer (All-left _ xs ys pieces)
                        own.own,
                    new,
                  )
                  (append_assoc xs (final seq enc ∷ []) ys),
        )

  sort-singleton : IsSort sort → (f : VideoFragment) → sort (f ∷ []) ≡ f ∷ []
  sort-singleton s f =
      sorted-eq_of_perm (sort (f ∷ [])) (f ∷ []) (s.sorted (f ∷ [])) (Pairwise-singleton _ f)
        (s.perm (f ∷ []))

  reassemble_oversized : (f : VideoFragment) → 1400 < f.fragment_s → reassemble (f ∷ []) ≡ none
  unfolding reassemble
  reassemble_oversized f big = ground arith

  store_oversized :
      (s : IsSort sort) (p : Player Image) (f : VideoFragment) (key : ℤ)
      → f.last_fragment ≡ true
      → f.total_fragments ≡ 1
      → 1400 < f.fragment_s
      → at f.frame_seq p.fragment_buffer ≡ []
      → store imdecode sort p f key ≡ none
  unfolding store complete
  store_oversized s p f key last single big new =
      simp (last, single, at-push_back_self, new, sort-singleton s, reassemble_oversized f big)

  -- A datagram can make `VideoPlayback` read past the end of `Fdata`: for every datagram that is
  -- read as the flagged and only fragment of a frame of which nothing is stored, and whose
  -- `fragment_s` is more than 1400, the round has undefined behaviour.
  pub oversized_fragment-undefined :
      (s : IsSort sort) (p : Player Image) (bytes : List ℕ) (key : ℤ)
      → (recv_fragment bytes).last_fragment ≡ true
      → (recv_fragment bytes).total_fragments ≡ 1
      → 1400 < (recv_fragment bytes).fragment_s
      → at (recv_fragment bytes).frame_seq p.fragment_buffer ≡ []
      → play_round imdecode sort p (record { received = got bytes; key = key }) ≡ none
  unfolding play_round
  oversized_fragment-undefined s p bytes key last single big new =
      store_oversized s p (recv_fragment bytes) key last single big new

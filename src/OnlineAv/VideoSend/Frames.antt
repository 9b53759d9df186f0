-- ===== src/OnlineAv/VideoSend/Frames.antt =====
-- The fragments of a frame as a list: all but the last, the last, their order, what they join to.
use native.Mathlib.Bridge.{le_prop}
use mathlib.Core.List.{Pairwise}
use eng_project.Base.{
  ℕ, zero, suc, ◌+◌, ◌-◌, ◌*◌, ◌^◌, ◌<◌, ◌≤◌, ◌≡◌, refl, sym, ap, ◌∙◌, min, true, false, some, List,
  [], ◌∷◌, ◌++◌, arith, length, take, drop, replicate, All, All-mem, All-mono, length-take,
  length-drop, take-append_of_length, take-append-drop, take-min, drop_of_length-le, drop-drop,
}
use eng_project.OnlineAv.Fragment.{VideoFragment}
use eng_project.OnlineAv.VideoSend.{total_fragments, make_fragment, fragments_from, fragments}
use eng_project.OnlineAv.VideoSend.Cover.{
  Fits, total_bounds, fragment_s_lem, last_fragment_lem, payload_lem, make_fragment-IsWire, Piece,
  Own, All-Own,
}
use eng_project.OnlineAv.VideoPlay.{reassemble, frame_bytes}
use eng_project.OnlineAv.VideoPlay.Order.{Before}

module _ (seq : ℕ) (enc : List ℕ) where
  -- All fragments but the last.
  abbrev pub early : List VideoFragment
  early = fragments_from seq enc (total_fragments enc) (total_fragments enc - 1) 0

  abbrev pub final : VideoFragment
  final = make_fragment seq enc (total_fragments enc) (total_fragments enc - 1)

  pub from-snoc :
      (total rounds i j : ℕ)
      → i + rounds ≡ j
      → fragments_from seq enc total (suc rounds) i
        ≡ fragments_from seq enc total rounds i ++ make_fragment seq enc total j ∷ []
  unfolding fragments_from
  from-snoc total zero i j e = let e' : i ≡ j = omega arith in rw e'
  from-snoc total (suc rounds) i j e =
      ap (◌∷◌ (make_fragment seq enc total i)) (from-snoc total rounds (suc i) j (omega arith))

  pub length-from : (total rounds i : ℕ) → length (fragments_from seq enc total rounds i) ≡ rounds
  unfolding fragments_from
  length-from total zero i = refl
  length-from total (suc rounds) i = ap suc (length-from total rounds (suc i))

  pub length-fragments : length (fragments seq enc) ≡ total_fragments enc
  unfolding fragments
  length-fragments = length-from (total_fragments enc) (total_fragments enc) 0

  module _ (h : Fits enc) where
    pub fragments-split : 0 < length enc → fragments seq enc ≡ early ++ final ∷ []
    unfolding fragments
    fragments-split pos =
        let e : total_fragments enc ≡ suc (total_fragments enc - 1) =
          omega (arith, total_bounds enc h) in
        ap (λ (n : ℕ). fragments_from seq enc (total_fragments enc) n 0) e
        ∙ from-snoc (total_fragments enc) (total_fragments enc - 1) 0 (total_fragments enc - 1)
            (omega arith)

    Piece-make :
        seq < 2 ^ 32
        → (i : ℕ) → i < total_fragments enc
        → Piece seq (total_fragments enc) (make_fragment seq enc (total_fragments enc) i)
    unfolding make_fragment
    Piece-make s i lt = record {
      wire = make_fragment-IsWire seq enc i h lt s;
      own = refl;
      share = refl;
      small = omega arith;
    }

    Piece-from :
        seq < 2 ^ 32
        → (rounds i : ℕ) → i + rounds ≤ total_fragments enc
        → All
            (Piece seq (total_fragments enc))
            (fragments_from seq enc (total_fragments enc) rounds i)
    unfolding fragments_from
    Piece-from s zero i le = tt
    Piece-from s (suc rounds) i le =
        (Piece-make s i (omega arith), Piece-from s rounds (suc i) (omega arith))

    from-not_last :
        (rounds i : ℕ)
        → i + rounds < total_fragments enc
        → All (λ f. f.last_fragment ≡ false) (fragments_from seq enc (total_fragments enc) rounds i)
    unfolding fragments_from
    from-not_last zero i lt = tt
    from-not_last (suc rounds) i lt =
        (ground (arith, last_fragment_lem seq enc i h), from-not_last rounds (suc i) (omega arith))

    frame_bytes-make :
        (i : ℕ)
        → i < total_fragments enc
        → frame_bytes (make_fragment seq enc (total_fragments enc) i)
          ≡ some (take (min 1400 (length enc - i * 1400)) (drop (i * 1400) enc))
    unfolding frame_bytes
    frame_bytes-make i lt =
        rw (payload_lem seq enc i h lt, fragment_s_lem seq enc i h lt)
          (ground (
            arith,
            take-append_of_length (min 1400 (length enc - i * 1400))
                (take (min 1400 (length enc - i * 1400)) (drop (i * 1400) enc))
                (replicate (1400 - min 1400 (length enc - i * 1400)) 0),
            length-take {0} (min 1400 (length enc - i * 1400)) (drop (i * 1400) enc),
            length-drop {0} (i * 1400) enc,
          ))

    piece-append :
        (i : ℕ)
        → take (min 1400 (length enc - i * 1400)) (drop (i * 1400) enc) ++ drop (suc i * 1400) enc
          ≡ drop (i * 1400) enc
    piece-append i =
        rw
          (
            ← length-drop (i * 1400) enc,
            take-min 1400 (drop (i * 1400) enc),
            ← drop-drop (i * 1400) 1400 (suc i * 1400) enc (omega arith),
          )
          (take-append-drop 1400 (drop (i * 1400) enc))

    reassemble-from :
        (rounds i : ℕ)
        → i + rounds ≡ total_fragments enc
        → reassemble (fragments_from seq enc (total_fragments enc) rounds i)
          ≡ some (drop (i * 1400) enc)
    unfolding fragments_from reassemble
    reassemble-from zero i e =
        ap some (sym (drop_of_length-le (i * 1400) enc (omega (arith, total_bounds enc h))))
    reassemble-from (suc rounds) i e =
        rw (frame_bytes-make i (omega arith), reassemble-from rounds (suc i) (omega arith))
          (ap some (piece-append i))

    -- Joined in order, the fragments are the encoded frame.
    pub reassemble-fragments : reassemble (fragments seq enc) ≡ some enc
    unfolding fragments
    reassemble-fragments = reassemble-from (total_fragments enc) 0 (omega arith)

    pub final-Piece : seq < 2 ^ 32 → 0 < length enc → Piece seq (total_fragments enc) final
    final-Piece s pos = Piece-make s (total_fragments enc - 1) (omega (arith, total_bounds enc h))

    pub final-last : 0 < length enc → final.last_fragment ≡ true
    final-last pos =
        let lt : total_fragments enc - 1 < total_fragments enc =
          omega (arith, total_bounds enc h) in
        ground (arith, last_fragment_lem seq enc (total_fragments enc - 1) h lt)

    pub fragments-Piece : seq < 2 ^ 32 → All (Piece seq (total_fragments enc)) (fragments seq enc)
    unfolding fragments
    fragments-Piece s = Piece-from s (total_fragments enc) 0 (omega arith)

    pub early-Own : seq < 2 ^ 32 → All (Own seq) early
    early-Own s =
        All-Own seq (total_fragments enc) early
          (Piece-from s (total_fragments enc - 1) 0 (omega arith))

    pub early-not_last : 0 < length enc → All (λ f. f.last_fragment ≡ false) early
    early-not_last pos =
        from-not_last (total_fragments enc - 1) 0 (omega (arith, total_bounds enc h))

    pub length-early : 0 < length enc → suc (length early) ≡ total_fragments enc
    length-early pos =
        omega
          (arith, length-from (total_fragments enc) (total_fragments enc - 1) 0, total_bounds enc h)

  from-above :
      (total rounds i : ℕ) → All (λ f. i ≤ f.fragment_i) (fragments_from seq enc total rounds i)
  unfolding fragments_from make_fragment
  from-above total zero i = tt
  from-above total (suc rounds) i =
      (omega arith, All-mono _ (λ f le. omega arith) (from-above total rounds (suc i)))

  from-Before : (total rounds i : ℕ) → Pairwise Before (fragments_from seq enc total rounds i)
  unfolding fragments_from make_fragment
  from-Before total zero i = Pairwise.nil
  from-Before total (suc rounds) i =
      Pairwise.cons (All-mem (λ f. le_prop) _ (from-above total rounds (suc i)))
        (from-Before total rounds (suc i))

  pub fragments-Before : Pairwise Before (fragments seq enc)
  unfolding fragments
  fragments-Before = from-Before (total_fragments enc) (total_fragments enc) 0

-- ===== src/OnlineAv/VideoPlay/Roundtrip.antt =====
-- A frame that `VideoRecandSend` cuts up is put together again by `VideoPlayback`.
use mathlib.Core.List.Perm
use eng_project.Base.{
  ℕ, ◌^◌, ◌<◌, ◌≡◌, sym, ap, ◌∙◌, true, false, Option, none, some, List, [], ◌∷◌, ◌++◌, append-nil,
  map, Perm, arith, ◌==◌, ==_iff, Bool-cases, inl, inr, ℤ, length, length-append, length-perm, All,
  All-perm,
}
use eng_project.Base.Assoc.{erase}
use eng_project.OnlineAv.Fragment.{VideoFragment}
use eng_project.OnlineAv.VideoSend.{total_fragments, make_fragment, fragments}
use eng_project.OnlineAv.VideoSend.Cover.{Fits, Own, Own-prop}
use eng_project.OnlineAv.VideoSend.Frames.{
  early, final, early-Own, final-Piece, early-not_last, final-last, length-early, fragments-split,
  fragments-Before, reassemble-fragments,
}
use eng_project.OnlineAv.VideoPlay.{
  Buffer, IsSort, Screen, shown, Player, at, push_back, show_frame, play_round, play_video,
  is_escape,
}
use eng_project.OnlineAv.VideoPlay.Order.{sorted-eq_of_perm}
use eng_project.OnlineAv.VideoPlay.Collect.{
  push_all, at-push_all, at-push_all_ne, at-push_back_self, at-push_back_ne, at-erase, arrives,
  play_round-shows, play_video-nil, play_video-cons, play_video-early,
}

-- What appears in the window.
abbrev pub on_screen : {Image : Type 0} → Option Image → List (Screen Image)
on_screen none = []
on_screen (some image) = shown image ∷ []

module _ {Image : Type 0} (imdecode : List ℕ → Option Image)
    (sort : List VideoFragment → List VideoFragment) (p : Player Image) (bytes : List ℕ)
    (key : ℤ) where
  show_frame-bytes : (show_frame imdecode sort p bytes key).reassembled_frame ≡ bytes
  unfolding show_frame
  show_frame-bytes = ground arith

  show_frame-log : (show_frame imdecode sort p bytes key).log ≡ p.log ++ on_screen (imdecode bytes)
  unfolding show_frame
  show_frame-log = ground (arith, append-nil p.log)

  show_frame-running :
      is_escape key ≡ false → (show_frame imdecode sort p bytes key).running ≡ p.running
  unfolding show_frame
  show_frame-running stay = ground arith

module _ {Image : Type 0} (imdecode : List ℕ → Option Image)
    (sort : List VideoFragment → List VideoFragment) (seq : ℕ) (enc : List ℕ)
    (seq_fits : seq < 2 ^ 32) (fits : Fits enc) (pos : 0 < length enc)
    (arrived : List VideoFragment) (order : Perm arrived (early seq enc)) where
  abbrev total : ℕ
  total = total_fragments enc

  arrived-Own : All (Own seq) arrived
  arrived-Own = All-perm (Own-prop seq) order (early-Own seq enc fits seq_fits)

  all-Perm : Perm (arrived ++ final seq enc ∷ []) (fragments seq enc)
  all-Perm = rw (fragments-split seq enc fits pos) (Perm.append order Perm.rfl)

  sort-all : IsSort sort → sort (arrived ++ final seq enc ∷ []) ≡ fragments seq enc
  sort-all s =
      sorted-eq_of_perm (sort (arrived ++ final seq enc ∷ [])) (fragments seq enc)
        (s.sorted (arrived ++ final seq enc ∷ [])) (fragments-Before seq enc)
        (Perm.trans (s.perm (arrived ++ final seq enc ∷ [])) all-Perm)

  length-all : length (arrived ++ final seq enc ∷ []) ≡ total
  length-all = omega (
    arith,
    length-append {0} arrived (final seq enc ∷ []),
    length-perm {0} order,
    length-early seq enc fits pos,
  )

  arrived-not_last : All (λ f. f.last_fragment ≡ false) arrived
  arrived-not_last = All-perm (λ f. hlevel) order (early-not_last seq enc fits pos)

  -- Everything but the last fragment has been stored.
  abbrev collected : Player Image → Player Image
  collected p = record p { fragment_buffer = push_all arrived p.fragment_buffer }

  abbrev last_in : Player Image → Buffer
  last_in p = push_back (final seq enc) (push_all arrived p.fragment_buffer)

  at-last_in :
      (p : Player Image)
      → at seq p.fragment_buffer ≡ []
      → at seq (last_in p) ≡ arrived ++ final seq enc ∷ []
  at-last_in p new =
      at-push_back_self seq (final seq enc) _ (final-Piece seq enc fits seq_fits pos).own
      ∙ rw (at-push_all seq arrived p.fragment_buffer arrived-Own, new)

  -- The state in which the frame has been shown.
  abbrev pub after : Player Image → ℤ → Player Image
  after p key =
      record (show_frame imdecode sort (record p { fragment_buffer = last_in p }) enc key) {
        fragment_buffer = erase seq (last_in p);
      }

  play_round-final :
      (s : IsSort sort) (p : Player Image) (key : ℤ)
      → at seq p.fragment_buffer ≡ []
      → play_round imdecode sort (collected p) (arrives key (final seq enc)) ≡ some (after p key)
  unfolding make_fragment
  play_round-final s p key new =
      play_round-shows imdecode sort (collected p) key (final seq enc)
        (arrived ++ final seq enc ∷ []) enc (final-Piece seq enc fits seq_fits pos).wire
        (final-last seq enc fits pos) (at-last_in p new) length-all
        (rw (sort-all s) (reassemble-fragments seq enc fits))

  play_video-frame :
      (s : IsSort sort) (p : Player Image) (key : ℤ)
      → p.running ≡ true
      → at seq p.fragment_buffer ≡ []
      → play_video imdecode sort p (map (arrives key) arrived ++ arrives key (final seq enc) ∷ [])
        ≡ some (after p key)
  play_video-frame s p key run new =
      play_video-early imdecode sort seq key arrived p _ run arrived-Own arrived-not_last
      ∙ (play_video-cons imdecode sort (collected p) (arrives key (final seq enc)) [] run
          ∙ rw (play_round-final s p key new) (play_video-nil imdecode sort (after p key)))

  at-after :
      (p : Player Image) (key : ℤ) (k : ℕ)
      → at seq p.fragment_buffer ≡ []
      → at k (after p key).fragment_buffer ≡ at k p.fragment_buffer
  at-after p key k new = elim (Bool-cases (seq == k)) [
    | inl same ↦
        at-erase seq k (last_in p)
        ∙ rw same (sym new ∙ ap (λ (j : ℕ). at j p.fragment_buffer) ((==_iff seq k).0 same))
    | inr other ↦
        at-erase seq k (last_in p)
        ∙ rw other (
            at-push_back_ne k (final seq enc) _
              (ground (arith, (final-Piece seq enc fits seq_fits pos).own))
            ∙ at-push_all_ne seq arrived p.fragment_buffer k arrived-Own other)
  ]

  -- A frame comes through: if a running player holds no fragment of frame `seq`, and receives the
  -- datagrams that `VideoRecandSend` sends for it, all but the last in any order and then the last,
  -- it runs into no undefined behaviour, has joined exactly the encoded bytes, has shown what they
  -- decode to (nothing, if they do not decode), has forgotten the fragments of this frame and kept
  -- those of every other, and goes on running unless Escape is pressed. The frame is not empty and
  -- shorter than 2 ^ 32 bytes, and `std::sort` sorts.
  pub video-roundtrip :
      (s : IsSort sort) (p : Player Image) (key : ℤ)
      → p.running ≡ true
      → at seq p.fragment_buffer ≡ []
      → (q : Player Image) × (play_video imdecode sort p
            (map (arrives key) arrived ++ arrives key (final seq enc) ∷ [])
          ≡ some q)
        × (q.reassembled_frame ≡ enc)
        × (q.log ≡ p.log ++ on_screen (imdecode enc))
        × ((k : ℕ) → at k q.fragment_buffer ≡ at k p.fragment_buffer)
        × (is_escape key ≡ false → q.running ≡ true)
  video-roundtrip s p key run new = (
    after p key,
    play_video-frame s p key run new,
    show_frame-bytes imdecode sort (record p { fragment_buffer = last_in p }) enc key,
    show_frame-log imdecode sort (record p { fragment_buffer = last_in p }) enc key,
    λ k. at-after p key k new,
    λ stay.
        show_frame-running imdecode sort (record p { fragment_buffer = last_in p }) enc key stay
        ∙ run,
  )

-- ===== src/OnlineAv/VideoPlay/Collect.antt =====
-- What the buffer of `VideoPlayback` holds after fragments have come in.
use eng_project.Base.{
  ℕ, ◌+◌, ◌≡◌, ◌≢◌, refl, sym, ap, ◌∙◌, Bool, true, false, Option, some, List, [], ◌∷◌, ◌++◌,
  append_assoc, append-nil, map, arith, ◌==◌, ==_refl, if◌then◌else◌, ℤ, got, length, length-append,
  All, ◌>>=◌,
}
use eng_project.Base.Assoc.{lookup-insert, erase, lookup-erase}
use eng_project.OnlineAv.Fragment.{VideoFragment, IsWire, to_image, recv_fragment-to_image}
use eng_project.OnlineAv.VideoSend.Cover.{Own}
use eng_project.OnlineAv.VideoPlay.{
  Buffer, at, push_back, Player, Arrival, reassemble, show_frame, complete, store, play_round,
  play_video,
}

pub at-push_back :
    (k : ℕ) (f : VideoFragment) (m : Buffer)
    → at k (push_back f m) ≡ (if f.frame_seq == k then at f.frame_seq m ++ f ∷ [] else at k m)
unfolding at push_back
at-push_back k f m = ground (arith, lookup-insert f.frame_seq k (at f.frame_seq m ++ f ∷ []) m)

pub at-erase : (k j : ℕ) (m : Buffer) → at j (erase k m) ≡ (if k == j then [] else at j m)
unfolding at
at-erase k j m = ground (arith, lookup-erase k j m)

unfoldable pub push_all : List VideoFragment → Buffer → Buffer
push_all [] m = m
push_all (f ∷ fs) m = push_all fs (push_back f m)

-- The datagram that carries `f`, and the key that would be pressed if a frame were shown.
abbrev pub arrives : ℤ → VideoFragment → Arrival
arrives key f = record { received = got (to_image f); key = key }

pub at-push_back_self :
    (k : ℕ) (f : VideoFragment) (m : Buffer)
    → f.frame_seq ≡ k
    → at k (push_back f m) ≡ at k m ++ f ∷ []
at-push_back_self k f m e = rw (at-push_back k f m, e, ==_refl k)

pub at-push_back_ne :
    (k : ℕ) (f : VideoFragment) (m : Buffer)
    → (f.frame_seq == k) ≡ false
    → at k (push_back f m) ≡ at k m
at-push_back_ne k f m e = rw (at-push_back k f m, e)

module _ (seq : ℕ) where
  pub at-push_all :
      (fs : List VideoFragment) (m : Buffer)
      → All (Own seq) fs
      → at seq (push_all fs m) ≡ at seq m ++ fs
  unfolding push_all
  at-push_all [] m h = sym (append-nil (at seq m))
  at-push_all (f ∷ fs) m h =
      at-push_all fs (push_back f m) h.1
      ∙ rw (at-push_back_self seq f m h.0.own) (append_assoc (at seq m) (f ∷ []) fs)

  pub at-push_all_ne :
      (fs : List VideoFragment) (m : Buffer) (k : ℕ)
      → All (Own seq) fs
      → (seq == k) ≡ false
      → at k (push_all fs m) ≡ at k m
  unfolding push_all
  at-push_all_ne [] m k h ne = refl
  at-push_all_ne (f ∷ fs) m k h ne =
      at-push_all_ne fs (push_back f m) k h.1 ne ∙ at-push_back_ne k f m (ground (arith, h.0.own))

  -- All of it is there, the fragment that came last at the end.
  pub at-through :
      (fs : List VideoFragment) (f : VideoFragment) (m : Buffer)
      → All (Own seq) fs
      → f.frame_seq ≡ seq
      → at seq (push_back f (push_all fs m)) ≡ at seq m ++ fs ++ f ∷ []
  at-through fs f m h own =
      at-push_back_self seq f (push_all fs m) own
      ∙ ap (λ (l : List VideoFragment). l ++ f ∷ []) (at-push_all fs m h)

module _ {Image : Type 0} (imdecode : List ℕ → Option Image)
    (sort : List VideoFragment → List VideoFragment) where
  pub play_round-early :
      (p : Player Image) (key : ℤ) (f : VideoFragment)
      → IsWire f
      → f.last_fragment ≡ false
      → play_round imdecode sort p (arrives key f)
        ≡ some (record p { fragment_buffer = push_back f p.fragment_buffer })
  unfolding play_round store
  play_round-early p key f w e = rw (recv_fragment-to_image f w, e)

  pub play_video-nil : (p : Player Image) → play_video imdecode sort p [] ≡ some p
  unfolding play_video
  play_video-nil p = refl

  pub play_video-cons :
      (p : Player Image) (a : Arrival) (later : List Arrival)
      → p.running ≡ true
      → play_video imdecode sort p (a ∷ later)
        ≡ (play_round imdecode sort p a >>= λ p'. play_video imdecode sort p' later)
  unfolding play_video
  play_video-cons p a later run =
      ap
        (λ (b : Bool). elim b [
          | true ↦ play_round imdecode sort p a >>= λ p'. play_video imdecode sort p' later
          | false ↦ some p
        ])
        run

  -- Fragments without the flag are stored, and the loop goes on.
  pub play_video-early :
      (seq : ℕ) (key : ℤ) (fs : List VideoFragment) (p : Player Image) (later : List Arrival)
      → p.running ≡ true
      → All (Own seq) fs
      → All (λ f. f.last_fragment ≡ false) fs
      → play_video imdecode sort p (map (arrives key) fs ++ later)
        ≡ play_video imdecode sort
            (record p { fragment_buffer = push_all fs p.fragment_buffer })
            later
  unfolding push_all
  play_video-early seq key [] p later run h e = refl
  play_video-early seq key (f ∷ fs) p later run h e =
      play_video-cons p (arrives key f) (map (arrives key) fs ++ later) run
      ∙ rw (play_round-early p key f h.0.wire e.0) (
          play_video-early seq key fs (record p { fragment_buffer = push_back f p.fragment_buffer })
            later run h.1 e.1)

  pub play_video-only_early :
      (seq : ℕ) (key : ℤ) (fs : List VideoFragment) (p : Player Image)
      → p.running ≡ true
      → All (Own seq) fs
      → All (λ f. f.last_fragment ≡ false) fs
      → play_video imdecode sort p (map (arrives key) fs)
        ≡ some (record p { fragment_buffer = push_all fs p.fragment_buffer })
  play_video-only_early seq key fs p run h e =
      ap (play_video imdecode sort p) (sym (append-nil (map (arrives key) fs)))
      ∙ (play_video-early seq key fs p [] run h e ∙ play_video-nil _)

  -- The flagged fragment makes the frame complete: it is shown, and forgotten.
  pub play_round-shows :
      (p : Player Image) (key : ℤ) (f : VideoFragment) (l : List VideoFragment) (bytes : List ℕ)
      → IsWire f
      → f.last_fragment ≡ true
      → at f.frame_seq (push_back f p.fragment_buffer) ≡ l
      → length l ≡ f.total_fragments
      → reassemble (sort l) ≡ some bytes
      → play_round imdecode sort p (arrives key f)
        ≡ some
            (record (show_frame imdecode sort
              (record p { fragment_buffer = push_back f p.fragment_buffer })
              bytes
              key) { fragment_buffer = erase f.frame_seq (push_back f p.fragment_buffer) })
  unfolding play_round store complete
  play_round-shows p key f l bytes w last e n joined =
      simp (recv_fragment-to_image f w, last, e, n, ==_refl, joined)

  -- The flagged fragment comes while others are missing, or twice: it is only stored.
  pub play_round-waits :
      (p : Player Image) (key : ℤ) (f : VideoFragment)
      → IsWire f
      → (length (at f.frame_seq (push_back f p.fragment_buffer)) == f.total_fragments) ≡ false
      → play_round imdecode sort p (arrives key f)
        ≡ some (record p { fragment_buffer = push_back f p.fragment_buffer })
  unfolding play_round store complete
  play_round-waits p key f w n = rw (recv_fragment-to_image f w, n) (ground arith)

  -- Fragments without the flag, and then one with another total than are stored by then.
  pub play_video-waits :
      (seq : ℕ) (key : ℤ) (fs : List VideoFragment) (f : VideoFragment) (p : Player Image)
      (later : List Arrival)
      → p.running ≡ true
      → All (Own seq) fs
      → All (λ f. f.last_fragment ≡ false) fs
      → Own seq f
      → length (at seq p.fragment_buffer) + (length fs + 1) ≢ f.total_fragments
      → play_video imdecode sort p (map (arrives key) fs ++ arrives key f ∷ later)
        ≡ play_video imdecode sort
            (record p { fragment_buffer = push_back f (push_all fs p.fragment_buffer) })
            later
  play_video-waits seq key fs f p later run h e own differs =
      let m : Buffer = push_all fs p.fragment_buffer in
      let there : length (at f.frame_seq (push_back f m))
          ≡ length (at seq p.fragment_buffer) + (length fs + 1) =
        ap (λ (k : ℕ). length (at k (push_back f m))) own.own
        ∙ (ap length (at-through seq fs f p.fragment_buffer h own.own)
            ∙ omega (
              arith,
              length-append (at seq p.fragment_buffer ++ fs) (f ∷ []),
              length-append (at seq p.fragment_buffer) fs,
            )) in
      let other : (length (at f.frame_seq (push_back f m)) == f.total_fragments) ≡ false =
        ground (arith, differs) in
      play_video-early seq key fs p (arrives key f ∷ later) run h e
      ∙ (play_video-cons (record p { fragment_buffer = m }) (arrives key f) later run
          ∙ rw (play_round-waits (record p { fragment_buffer = m }) key f own.wire other) refl)

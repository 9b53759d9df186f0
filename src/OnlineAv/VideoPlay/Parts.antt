-- ===== src/OnlineAv/VideoPlay/Parts.antt =====
-- What `VideoPlayback` does with a part of what arrives, and then with the rest.
use eng_project.Base.{
  ◌≡◌, refl, sym, ap, ◌∙◌, false, Bool-cases, inl, inr, Option, none, some, List, [], ◌∷◌, ◌++◌, ℕ,
  arith, ◌>>=◌,
}
use eng_project.OnlineAv.Fragment.{VideoFragment}
use eng_project.OnlineAv.VideoPlay.{Player, Arrival, play_round, play_video}
use eng_project.OnlineAv.VideoPlay.Collect.{play_video-nil, play_video-cons}

module _ {Image : Type 0} (imdecode : List ℕ → Option Image)
    (sort : List VideoFragment → List VideoFragment) where
  pub play_video-stopped :
      (p : Player Image) (l : List Arrival)
      → p.running ≡ false
      → play_video imdecode sort p l ≡ some p
  unfolding play_video
  play_video-stopped p [] e = refl
  play_video-stopped p (a ∷ l) e = ground arith

  -- One part after the other.
  after_round :
      (q : Player Image) (later after : List Arrival) (r : Option (Player Image))
      → ((p : Player Image)
          → play_video imdecode sort p later ≡ some q
          → play_video imdecode sort p (later ++ after) ≡ play_video imdecode sort q after)
      → (r >>= λ p. play_video imdecode sort p later) ≡ some q
      → (r >>= λ p. play_video imdecode sort p (later ++ after)) ≡ play_video imdecode sort q after
  after_round q later after none goes_on e = cc
  after_round q later after (some p) goes_on e = goes_on p e

  pub play_video-append :
      (before after : List Arrival) (p q : Player Image)
      → play_video imdecode sort p before ≡ some q
      → play_video imdecode sort p (before ++ after) ≡ play_video imdecode sort q after
  play_video-append [] after p q e =
      let nothing = play_video-nil imdecode sort p in
      let same : p ≡ q = cc in ap (λ (x : Player Image). play_video imdecode sort x after) same
  play_video-append (a ∷ before) after p q e = elim (Bool-cases p.running) [
    | inl run ↦
        play_video-cons imdecode sort p a (before ++ after) run
        ∙ after_round q before after (play_round imdecode sort p a)
            (λ x. play_video-append before after x q)
            (sym (play_video-cons imdecode sort p a before run) ∙ e)
    | inr still ↦
        let stays = play_video-stopped p (a ∷ before) still in
        let same : p ≡ q = cc in
        play_video-stopped p (a ∷ (before ++ after)) still
        ∙ (sym (play_video-stopped p after still)
            ∙ ap (λ (x : Player Image). play_video imdecode sort x after) same)
  ]

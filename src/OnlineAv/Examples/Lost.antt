-- ===== src/OnlineAv/Examples/Lost.antt =====
-- Frames that are lost, at concrete inputs.
use mathlib.Core.List.Perm
use eng_project.Base.{
  ◌<◌, ℕ, ap, suc, ◌≡◌, ◌≢◌, refl, true, some, List, [], ◌∷◌, ◌++◌, map, arith, pos, negsuc, length,
  length-append, append-nil,
}
use eng_project.OnlineAv.Fragment.{VideoFragment, to_image}
use eng_project.Base.Assoc.{lookup}
use eng_project.OnlineAv.VideoSend.Cover.{total_bounds}
use eng_project.OnlineAv.VideoSend.Frames.{early, final, length-fragments, length-early}
use eng_project.OnlineAv.VideoSend.{fragments}
use eng_project.OnlineAv.VideoPlay.{at, Player, play_video}
use eng_project.OnlineAv.VideoPlay.Collect.{arrives}
use eng_project.OnlineAv.VideoPlay.Mixed.{mixed_frames-lost}
use eng_project.OnlineAv.Audio.{speaker}
use eng_project.OnlineAv.Sharing.{
  Reader, audio_playback, video_playback, Datagram, Program, receive_all,
}
use eng_project.OnlineAv.Sharing.Stolen.{Carry, seen, stolen_fragment-lost}
use eng_project.OnlineAv.Examples.Together.{decode, idle, picture}

abbrev program : Program ℕ
program = record { peer_list = []; speaker = speaker; player = idle }

-- `AudioPlayback` gets the first fragment, `VideoPlayback` all others.
abbrev to_reader : Reader → VideoFragment → Datagram
to_reader r f = record {
  bytes = to_image f;
  sender = record { s_addr = 1; sin_port = 12345 };
  reader = r;
  written = pos 0;
  key = negsuc 0;
}

abbrev stolen_first : List VideoFragment → List Datagram
stolen_first [] = []
stolen_first (f ∷ fs) = to_reader audio_playback f ∷ map (to_reader video_playback) fs

Carry-map : (fs : List VideoFragment) → Carry (map (to_reader video_playback) fs) fs
Carry-map [] = tt
Carry-map (f ∷ fs) = (refl, Carry-map fs)

Carry-stolen_first : (fs : List VideoFragment) → Carry (stolen_first fs) fs
Carry-stolen_first [] = tt
Carry-stolen_first (f ∷ fs) = (refl, Carry-map fs)

seen_rest :
    (fs : List VideoFragment) → length (seen (map (to_reader video_playback) fs) fs) ≡ length fs
seen_rest [] = refl
seen_rest (f ∷ fs) = ap suc (seen_rest fs)

one_stolen :
    (fs : List VideoFragment) → 0 < length fs → length (seen (stolen_first fs) fs) < length fs
one_stolen [] h = absurd (omega arith)
one_stolen (f ∷ fs) h = omega (arith, seen_rest fs)

nothing_held : at 3 [] ≡ []
unfolding at lookup
nothing_held = refl

stolen_fragment-lost_example :
    (q : Program ℕ) × (receive_all decode (λ l. l) program (stolen_first (fragments 3 picture))
      ≡ some q)
    × (q.player.running ≡ true)
    × (q.player.log ≡ [])
    × (at 3 q.player.fragment_buffer
        ≡ seen (stolen_first (fragments 3 picture)) (fragments 3 picture))
stolen_fragment-lost_example =
    stolen_fragment-lost decode (λ l. l) 3 picture program (stolen_first (fragments 3 picture))
      (fragments 3 picture) (omega arith) (omega arith) Perm.rfl
      (Carry-stolen_first (fragments 3 picture))
      (one_stolen (fragments 3 picture)
        (omega (arith, length-fragments 3 picture, total_bounds picture (omega arith))))
      refl nothing_held

-- The flagged fragment of the first peer comes when the second has sent one, too.
both_early : length (early 3 picture ++ early 3 picture) ≢ length (early 3 picture)
both_early e = absurd (
    omega (
      arith,
      e,
      length-append (early 3 picture) (early 3 picture),
      length-early 3 picture (omega arith) (omega arith),
      total_bounds picture (omega arith),
    ))

mixed_frames-lost_example :
    (q : Player ℕ) × (play_video decode
        (λ l. l)
        idle
        (map (arrives (negsuc 0)) (early 3 picture ++ early 3 picture)
          ++ arrives (negsuc 0) (final 3 picture)
            ∷ (map (arrives (negsuc 0)) [] ++ arrives (negsuc 0) (final 3 picture) ∷ []))
      ≡ some q)
    × (q.running ≡ true)
    × (q.log ≡ [])
    × (at 3 q.fragment_buffer
        ≡ early 3 picture ++ early 3 picture ++ final 3 picture ∷ [] ++ final 3 picture ∷ [])
mixed_frames-lost_example =
    mixed_frames-lost decode (λ l. l) 3 picture picture (omega arith) (omega arith) (omega arith)
      (omega arith) (omega arith) (early 3 picture ++ early 3 picture) []
      (rw (append-nil (early 3 picture ++ early 3 picture)) Perm.rfl) idle (negsuc 0) refl
      nothing_held both_early

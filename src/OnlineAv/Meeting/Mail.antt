-- ===== src/OnlineAv/Meeting/Mail.antt =====
-- What each peer of Online_AV/Online_AV.cpp is sent in a run.
use Prim.Native.String.{String}
use eng_project.Base.{
  ◌≡◌, refl, ◌∙◌, Bool, Bool-cases, inl, inr, true, false, ◌&&◌, List, [], ◌∷◌, ◌++◌, append-nil, ℕ,
  arith, ℤ, if◌then◌else◌, is_neg,
}
use eng_project.OnlineAv.Net.{
  SockaddrIn, Event, Sendto, cerr, mail, mail-append, send_to_all, mail-send_to_all, occurs,
}
use eng_project.OnlineAv.Fragment
use eng_project.OnlineAv.Peers.Discovery.{greets, occurs-look_round}
use eng_project.OnlineAv.Audio
use eng_project.OnlineAv.Audio.{Recorder, recorder, read_error, samples, record_round}
use eng_project.OnlineAv.Meeting.{
  Meeting, Medium, sound, picture, Act, heard, sends, nothing, Step, looks, audio_fails,
  audio_sends, no_frame, encode_fails, encodes, video_sends, frame_sent, Run, at_first, and_then,
}

-- Whether `a` has greeted.
unfoldable pub greeted : SockaddrIn → List Act → Bool
greeted a [] = false
greeted a (heard h ∷ acts) = let before = greeted a acts in if greets a h then true else before
greeted a (sends _ _ ∷ acts) = greeted a acts
greeted a (nothing ∷ acts) = greeted a acts

abbrev pub same : Medium → Medium → Bool
same sound sound = true
same picture picture = true
same _ _ = false

-- What is sent by one of the threads once `a` has greeted, in order.
unfoldable pub due : SockaddrIn → Medium → List Act → List (List ℕ)
due a medium [] = []
due a medium (heard _ ∷ acts) = due a medium acts
due a medium (sends by packet ∷ acts) =
    let before = due a medium acts in
    if same medium by && greeted a acts then before ++ packet ∷ [] else before
due a medium (nothing ∷ acts) = due a medium acts

due-never :
    (a : SockaddrIn) (acts : List Act) (medium : Medium)
    → greeted a acts ≡ false
    → due a medium acts ≡ []
unfolding due greeted
due-never a [] medium never = refl
due-never a (heard h ∷ acts) medium never = ground (arith, due-never a acts medium)
due-never a (sends by packet ∷ acts) medium never = ground (arith, due-never a acts medium)
due-never a (nothing ∷ acts) medium never = due-never a acts medium never

module _ (sendto : Sendto) (a : SockaddrIn) where
  record Served (m : Meeting) (acts : List Act) : Type 0 where
    listed : occurs a m.peer_list ≡ (if greeted a acts then 1 else 0)
    hears : mail a m.recorder.events ≡ due a sound acts
    sees : mail a m.video_events ≡ due a picture acts

  -- A packet for all peers comes to `a` if it has greeted.
  mail-sent :
      (message : String) (packet : List ℕ) (peers : List SockaddrIn) (before : List Event)
      (yet : Bool)
      → occurs a peers ≡ (if yet then 1 else 0)
      → mail a (before ++ send_to_all sendto message packet peers)
        ≡ (if yet then mail a before ++ packet ∷ [] else mail a before)
  mail-sent message packet peers before true once =
      mail-append a before (send_to_all sendto message packet peers)
      ∙ rw (mail-send_to_all sendto message packet a peers, once) refl
  mail-sent message packet peers before false once =
      mail-append a before (send_to_all sendto message packet peers)
      ∙ rw (mail-send_to_all sendto message packet a peers, once) (append-nil (mail a before))

  mail-cerr :
      (before : List Event) (message : String)
      → mail a (before ++ cerr message ∷ []) ≡ mail a before
  unfolding mail
  mail-cerr before message = mail-append a before (cerr message ∷ []) ∙ append-nil (mail a before)

  mail-audio_fails :
      (r : Recorder) (prepared : ℤ)
      → mail a (record_round sendto r (read_error prepared)).events ≡ mail a r.events
  unfolding record_round mail
  mail-audio_fails r prepared = elim (Bool-cases (is_neg prepared)) [
    | inl fails ↦ rw fails (
        mail-append a r.events (cerr "Audio rec error" ∷ cerr "Audio device error. \n" ∷ [])
        ∙ append-nil (mail a r.events))
    | inr fine ↦ rw fine (mail-cerr r.events "Audio rec error")
  ]

  mail-audio_sends :
      (r : Recorder) (bytes : List ℕ) (peers : List SockaddrIn) (yet : Bool)
      → occurs a peers ≡ (if yet then 1 else 0)
      → let next = record_round sendto r (samples bytes peers) in
        mail a next.events
        ≡ (if yet then mail a r.events ++ Audio.to_image next.packet ∷ [] else mail a r.events)
  unfolding record_round
  mail-audio_sends r bytes peers yet once =
      mail-sent "Audio stream error. \n" _ peers r.events yet once

  Step-Served :
      {m n : Meeting} {act : Act} {acts : List Act}
      → Step sendto m act n
      → Served m acts
      → Served n (act ∷ acts)
  unfolding greeted due
  Step-Served {m} {acts = acts} (looks h) s = record {
    listed = occurs-look_round a m.peer_list h ∙ ground (arith, s.listed);
    hears = s.hears;
    sees = s.sees;
  }
  Step-Served {m} {acts = acts} (audio_fails prepared on) s = record {
    listed = s.listed;
    hears = mail-audio_fails m.recorder prepared ∙ s.hears;
    sees = s.sees;
  }
  Step-Served {m} {acts = acts} (audio_sends bytes on) s = record {
    listed = s.listed;
    hears =
        mail-audio_sends m.recorder bytes m.peer_list (greeted a acts) s.listed ∙ rw s.hears refl;
    sees = s.sees;
  }
  Step-Served {m} {acts = acts} (no_frame at) s = record {
    listed = s.listed;
    hears = s.hears;
    sees = mail-cerr m.video_events "Failed to rec video. \n" ∙ s.sees;
  }
  Step-Served {m} {acts = acts} (encode_fails at) s = record {
    listed = s.listed;
    hears = s.hears;
    sees = mail-cerr m.video_events "Video Encode error. \n" ∙ s.sees;
  }
  Step-Served {m} {acts = acts} (encodes enc at) s = record {
    listed = s.listed;
    hears = s.hears;
    sees = s.sees;
  }
  Step-Served {m} {acts = acts} (video_sends f fs at) s = record {
    listed = s.listed;
    hears = s.hears;
    sees =
        mail-sent "Transmission error: " (Fragment.to_image f) m.peer_list m.video_events
          (greeted a acts) s.listed
        ∙ rw s.sees refl;
  }
  Step-Served {m} {acts = acts} (frame_sent at) s = record {
    listed = s.listed;
    hears = s.hears;
    sees = s.sees;
  }

  Run-Served : {m : Meeting} {acts : List Act} → Run sendto acts m → Served m acts
  unfolding greeted due occurs mail recorder
  Run-Served at_first = record { listed = refl; hears = refl; sees = refl }
  Run-Served (and_then run st) = Step-Served st (Run-Served run)

  -- A peer gets all that is sent once it has greeted, and nothing before: in each run of the three
  -- threads, however their steps alternate and whatever `sendto` returns, what the audio thread has
  -- sent to an address is, in order and each packet once, what it has sent to the peers after the
  -- first greeting from that address was taken in; and what the video thread has sent to it are
  -- likewise the fragments sent after that greeting. An address that has not greeted gets nothing.
  pub mail-due :
      {m : Meeting} {acts : List Act}
      → Run sendto acts m
      → (mail a m.recorder.events ≡ due a sound acts)
        × (mail a m.video_events ≡ due a picture acts)
        × (greeted a acts ≡ false → (medium : Medium) → due a medium acts ≡ [])
  mail-due {acts = acts} run =
      let s = Run-Served run in (s.hears, s.sees, λ never medium. due-never a acts medium never)

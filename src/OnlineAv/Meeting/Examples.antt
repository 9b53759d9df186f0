-- ===== src/OnlineAv/Meeting/Examples.antt =====
-- A run of the three threads of Online_AV/Online_AV.cpp, and the theorems at concrete inputs.
use eng_project.Base.{ℕ, ◌≡◌, refl, true, false, List, [], ◌∷◌, ◌++◌, pos, got}
use eng_project.OnlineAv.Net.{SockaddrIn, Sendto, mail, send_to_all}
use eng_project.OnlineAv.Fragment
use eng_project.OnlineAv.Fragment.{VideoFragment}
use eng_project.OnlineAv.Peers.{Hail, hello, look_round}
use eng_project.OnlineAv.Audio
use eng_project.OnlineAv.Audio.{
  Recorder, Recording, recorder, samples, record_round, record_and_send,
}
use eng_project.OnlineAv.VideoSend.{make_fragment, total_fragments, fragments, fragments_from}
use eng_project.OnlineAv.Meeting.{
  Meeting, reading, sending, Medium, sound, picture, Act, heard, sends, nothing, looks, audio_sends,
  encodes, video_sends, frame_sent, alone, Run, at_first, and_then,
}
use eng_project.OnlineAv.Meeting.Mail.{greeted, due, mail-due}

abbrev quiet : Sendto
quiet _ _ = pos 0

abbrev friend : SockaddrIn
friend = record { s_addr = 7; sin_port = 12345 }

abbrev hail : Hail
hail = record { received = got hello; peer_addr = friend }

abbrev peers : List SockaddrIn
peers = (look_round [] hail).peer_list

-- Sound before the greeting and after it, and then a picture of one fragment.
abbrev early : Recorder
early = record_round quiet recorder (samples (1 ∷ 2 ∷ []) [])

abbrev late : Recorder
late = record_round quiet early (samples (3 ∷ 4 ∷ []) peers)

abbrev image : List ℕ
image = 8 ∷ 9 ∷ []

abbrev only : VideoFragment
only = make_fragment 0 image 1 0

abbrev acts : List Act
acts =
    nothing
    ∷ sends picture (Fragment.to_image only)
    ∷ nothing
    ∷ sends sound (Audio.to_image late.packet)
    ∷ heard hail
    ∷ sends sound (Audio.to_image early.packet)
    ∷ []

abbrev met : Meeting
met = record {
  peer_list = peers;
  recorder = late;
  frame_seq = 1;
  video = reading;
  video_events = [] ++ send_to_all quiet "Transmission error: " (Fragment.to_image only) peers;
}

one_fragment : fragments 0 image ≡ only ∷ []
unfolding fragments fragments_from total_fragments
one_fragment = refl

abbrev seen_off : Meeting
seen_off = record alone { peer_list = peers; recorder = late; video = sending (fragments 0 image) }

still_runs : early.running ≡ true
unfolding record_round recorder
still_runs = refl

starts : recorder.running ≡ true
unfolding recorder
starts = refl

acts-Run : Run quiet acts met
acts-Run =
    and_then
      (and_then
        (and_then
          (and_then (and_then (and_then at_first (audio_sends (1 ∷ 2 ∷ []) starts)) (looks hail))
            (audio_sends (3 ∷ 4 ∷ []) still_runs))
          (encodes image refl))
        (video_sends only [] (rw one_fragment refl)))
      (frame_sent refl)

mail-due_example :
    (mail friend late.events ≡ due friend sound acts)
    × (mail friend met.video_events ≡ due friend picture acts)
    × (greeted friend acts ≡ false → (medium : Medium) → due friend medium acts ≡ [])
mail-due_example = mail-due quiet friend acts-Run

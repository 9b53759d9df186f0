-- ===== src/OnlineAv/Meeting.antt =====
-- Online_AV/Online_AV.cpp: `LookForPeers`, `AudioRecAndSend` and `VideoRecandSend` side by side, as a
-- step relation. They share the list of peers; what a thread does under its lock `peer_mute` is one
-- step. Each list of events is that of one thread. A run may end anywhere, so also where another
-- thread has cleared `running`.
pub mod Mail
mod Examples
use eng_project.Base.{ℕ, ◌+◌, ◌%◌, ◌^◌, ◌≡◌, true, List, [], ◌∷◌, ◌++◌, ℤ}
use eng_project.OnlineAv.Net.{SockaddrIn, Event, cerr, Sendto, send_to_all}
use eng_project.OnlineAv.Fragment
use eng_project.OnlineAv.Fragment.{VideoFragment}
use eng_project.OnlineAv.Peers.{Hail, look_round}
use eng_project.OnlineAv.Audio
use eng_project.OnlineAv.Audio.{Recorder, recorder, read_error, samples, record_round}
use eng_project.OnlineAv.VideoSend.{fragments}

-- Where `VideoRecandSend` stands: before `cap.read`, or with these fragments still to send.
pub data Video : Type 0 where
  reading : Video
  sending : List VideoFragment → Video

pub record Meeting : Type 0 where
  pub peer_list : List SockaddrIn
  pub recorder : Recorder
  pub frame_seq : ℕ
  pub video : Video
  pub video_events : List Event

-- The threads that send.
pub data Medium : Type 0 where
  sound : Medium
  picture : Medium

-- What a step is to the other programs: a datagram taken in, a packet sent to the peers, or nothing.
pub data Act : Type 0 where
  heard : Hail → Act
  sends : Medium → List ℕ → Act
  nothing : Act

pub data Step (sendto : Sendto) (m : Meeting) : Act → Meeting → Type 0 where
  looks :
      (h : Hail)
      → Step sendto m (heard h) (record m { peer_list = (look_round m.peer_list h).peer_list })
  audio_fails :
      (prepared : ℤ)
      → m.recorder.running ≡ true
      → Step sendto m nothing
          (record m { recorder = record_round sendto m.recorder (read_error prepared) })
  audio_sends :
      (bytes : List ℕ)
      → m.recorder.running ≡ true
      → Step sendto m
          (sends sound
            (Audio.to_image (record_round sendto m.recorder (samples bytes m.peer_list)).packet))
          (record m { recorder = record_round sendto m.recorder (samples bytes m.peer_list) })
  no_frame :
      m.video ≡ reading
      → Step sendto m nothing
          (record m { video_events = m.video_events ++ cerr "Failed to rec video. \n" ∷ [] })
  encode_fails :
      m.video ≡ reading
      → Step sendto m nothing
          (record m { video_events = m.video_events ++ cerr "Video Encode error. \n" ∷ [] })
  encodes :
      (enc_frame : List ℕ)
      → m.video ≡ reading
      → Step sendto m nothing (record m { video = sending (fragments m.frame_seq enc_frame) })
  video_sends :
      (f : VideoFragment) (fs : List VideoFragment)
      → m.video ≡ sending (f ∷ fs)
      → Step sendto m (sends picture (Fragment.to_image f)) (record m {
        video = sending fs;
        video_events =
            m.video_events
            ++ send_to_all sendto "Transmission error: " (Fragment.to_image f) m.peer_list;
      })
  frame_sent :
      m.video ≡ sending []
      → Step sendto m nothing (record m { video = reading; frame_seq = (m.frame_seq + 1) % 2 ^ 32 })

-- When the threads have just been made, with the list that `main` made.
abbrev pub alone : Meeting
alone = record {
  peer_list = [];
  recorder = recorder;
  frame_seq = 0;
  video = reading;
  video_events = [];
}

-- A run from there, with what each step was, the last one first.
pub data Run (sendto : Sendto) : List Act → Meeting → Type 0 where
  at_first : Run sendto [] alone
  and_then :
      {acts : List Act} {m n : Meeting} {act : Act}
      → Run sendto acts m
      → Step sendto m act n
      → Run sendto (act ∷ acts) n

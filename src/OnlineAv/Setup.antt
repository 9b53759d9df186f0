-- ===== src/OnlineAv/Setup.antt =====
-- Online_AV/Online_AV.cpp, `ALSAset` and `main`: the socket and the two sound devices are set up, the
-- six threads run until Enter is pressed, and all is closed. What the threads do is in the other
-- modules.
pub mod Exits
use Prim.Native.String.{String}
use eng_project.Base.{ℕ, suc, Bool, true, false, List, [], ◌∷◌, ◌++◌, ℤ, is_neg, if◌then◌else◌}

pub data Resource : Type 0 where
  sockfd captureman playbackman : Resource

pub data Event : Type 0 where
  acquire : Resource → Event
  release : Resource → Event
  cerr : String → Event
  cout : String → Event

-- `ALSAset`, by whether `snd_pcm_open` succeeds for the two devices.
pub record Alsa : Type 0 where
  pub ready : Bool
  pub events : List Event

unfoldable pub alsa_set : (capture_opens playback_opens : Bool) → Alsa
alsa_set false playback_opens = record { ready = false; events = cerr "Capturing error.\n" ∷ [] }
alsa_set true false = record {
  ready = false;
  events = acquire captureman ∷ cerr "Playback error. \n" ∷ [];
}
alsa_set true true = record { ready = true; events = acquire captureman ∷ acquire playbackman ∷ [] }

-- What `socket`, `setsockopt` and `bind` return, and whether the devices open.
pub record Calls : Type 0 where
  pub socket : ℤ
  pub broadcast : ℤ
  pub bound : ℤ
  pub capture_opens : Bool
  pub playback_opens : Bool

pub record Exit : Type 0 where
  pub code : ℕ
  pub events : List Event

abbrev pub after : List Event → Exit → Exit
after es e = record { code = e.code; events = es ++ e.events }

-- From the start of the threads on: Enter clears `running`, and the threads are joined.
abbrev pub finish : Exit
finish = record {
  code = 0;
  events =
      cout "Press Enter to stop the program... \n"
      ∷ release captureman
      ∷ release playbackman
      ∷ release sockfd
      ∷ cout "End of program. \n"
      ∷ [];
}

-- `message`, `close(sockfd)`, `return 1`
abbrev pub give_up : String → Exit
give_up message = record { code = 1; events = cerr message ∷ release sockfd ∷ [] }

unfoldable pub main : Calls → Exit
unfolding alsa_set
main c =
    let alsa = alsa_set c.capture_opens c.playback_opens in
    if is_neg c.socket
    then record { code = 1; events = cerr "Failed socket init: " ∷ [] }
    else after (acquire sockfd ∷ []) (
        if is_neg c.broadcast
        then give_up "Failed to initialize broadcast: "
        else if is_neg c.bound
        then give_up "Socket bind failed: "
        else after alsa.events
            (if alsa.ready then finish else give_up "Failed to initialize ALSA. \n"))

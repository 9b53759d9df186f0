-- ===== src/Client/Playback.antt =====
-- TCPS/Client/TCPSC.cpp, `play_audio`: what the server sends is played and shown to the visualizer.
pub mod Stream
use Prim.Native.String.{String}
use eng_project.Base.{
  ℕ, ◌*◌, ◌/◌, Bool, true, false, List, [], ◌∷◌, ◌++◌, ℤ, pos, negsuc, is_pos, is_zero, is_neg,
  is_minus_one, ◌==◌, if◌then◌else◌, Received, count, payload, length, take,
}
use eng_project.Client.Event.{Event, send, play, close, close_device, perror, cerr, cout}

-- What a round meets: what `recv` did; the results of `snd_pcm_writei`, `snd_pcm_prepare` and
-- `send`; and whether `errno` is EPIPE after `send`.
pub record Round : Type 0 where
  pub received : Received
  pub written : ℤ
  pub prepared : ℤ
  pub shown : ℤ
  pub broken_pipe : Bool

pub record Playing : Type 0 where
  pub out : Bool
  pub stop_streaming : Bool
  pub events : List Event

abbrev leave : List Event → Playing
leave es = record { out = true; stop_streaming = true; events = es }

-- `err == -EPIPE`
abbrev pub is_epipe : ℤ → Bool
is_epipe (pos n) = false
is_epipe (negsuc n) = n == 31

-- The frames that are played: `byte_num / (Channels * 2)` of 4 bytes each.
abbrev pub whole_frames : List ℕ → List ℕ
whole_frames bytes = take (length bytes / 4 * 4) bytes

unfoldable pub show_bytes : (local_sockfd : ℤ) → Round → List ℕ → List Event → Playing
show_bytes local_sockfd r bytes before =
    if is_minus_one r.shown
    then leave (
        before
        ++ send local_sockfd bytes
          ∷ (if r.broken_pipe
              then cerr "Python visualizer disconnected. Playback pipe"
              else perror "Error sending playback to python")
          ∷ [])
    else record {
      out = false;
      stop_streaming = false;
      events = before ++ send local_sockfd bytes ∷ [];
    }

-- One round of `while (!stop_streaming)`.
unfoldable pub play_round : (local_sockfd : ℤ) → Round → Playing
play_round local_sockfd r =
    let bytes = payload r.received in
    let sound = play (whole_frames bytes) in
    if is_pos (count r.received)
    then (if is_neg r.written
        then (if is_epipe r.written
            then (if is_neg r.prepared
                then leave (
                    sound
                    ∷ cerr "Buffer underrun occurred: "
                    ∷ cerr "Error recovering from underrum"
                    ∷ [])
                else show_bytes local_sockfd r bytes
                    (sound ∷ cerr "Buffer underrun occurred: " ∷ []))
            else leave (sound ∷ cerr "write to audio interface failed: " ∷ []))
        else show_bytes local_sockfd r bytes (sound ∷ []))
    else leave (
        (if is_zero (count r.received)
          then cout "Server closed connection. \n"
          else perror "recv error")
        ∷ [])

-- The loop, over the rounds that begin while `stop_streaming` is not set.
unfoldable pub play_loop : (local_sockfd : ℤ) → List Round → Playing
play_loop local_sockfd [] = record { out = false; stop_streaming = false; events = [] }
play_loop local_sockfd (r ∷ rs) =
    let now = play_round local_sockfd r in
    let rest = play_loop local_sockfd rs in
    let all : Playing = record rest { events = now.events ++ rest.events } in
    if now.out then now else all

-- `play_audio`: what it has done when it returns.
unfoldable pub play_audio : (opened : Bool) → (local_sockfd : ℤ) → List Round → Playing
play_audio false local_sockfd rounds = record {
  out = true;
  stop_streaming = false;
  events = cerr "playback device error" ∷ [];
}
play_audio true local_sockfd rounds =
    let looped = play_loop local_sockfd rounds in
    record looped { events = looped.events ++ close_device ∷ close local_sockfd ∷ [] }

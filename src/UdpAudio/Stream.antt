-- ===== src/UdpAudio/Stream.antt =====
-- UDPaudio/UDPaudio.cpp, `audio_sender` and `audio_receiver`. What PulseAudio and asio do is
-- an input; an exception of asio ends a loop.
pub mod Header
use Prim.Native.String.{String}
use eng_project.Base.{
  ℕ, zero, suc, ◌+◌, ◌/◌, ◌%◌, Bool, true, false, List, [], ◌∷◌, ◌++◌, ℤ, is_neg, ltb, ◌==◌, not,
  if◌then◌else◌, take,
}
use eng_project.Base.Loop.{Turn, next, break, run}

-- `SAMPLE_SIZE * CHANNELS * 2`
abbrev pub buffer_size : ℕ
buffer_size = 4096

pub data Event : Type 0 where
  send_to : List ℕ → Event
  write : List ℕ → Event
  cerr : String → Event

-- The digits of a number, `fuel` of them at most.
unfoldable pub digits : (fuel : ℕ) → ℕ → List ℕ
digits zero n = []
digits (suc fuel) n =
    let more = digits fuel (n / 10) ++ (b'0' + n % 10) ∷ [] in
    if ltb n 10 then (b'0' + n) ∷ [] else more

-- `std::to_string` of a count of at most 63 bits, which has at most 19 digits.
unfoldable pub to_string : ℕ → List ℕ
unfolding digits
to_string n = digits 19 n

-- What a round of `audio_sender` meets: what `pa_simple_read` returns, the 4096 bytes that it stores
-- if this is not negative, the clock, and whether `send_to` throws.
pub record SendRound : Type 0 where
  pub read : ℤ
  pub buffer : List ℕ
  pub timestamp : ℕ
  pub throws : Bool

-- `timestamp_str + "|" + buffer`
unfoldable pub packet_data : ℕ → List ℕ → List ℕ
packet_data timestamp buffer = to_string timestamp ++ b'|' ∷ buffer

unfoldable pub send_round : Unit {0} → SendRound → Turn (Unit {0}) Event
send_round s r =
    if is_neg r.read
    then break s (cerr "PulseAudio read error: " ∷ [])
    else if r.throws
    then break s (cerr "Sender exception: " ∷ [])
    else next s (send_to (packet_data r.timestamp r.buffer) ∷ [])

unfoldable pub audio_sender : List SendRound → List Event
unfolding send_round
audio_sender rounds = (run send_round tt rounds).events

-- What a round of `audio_receiver` meets: the datagram, of which `receive_from` stores what fits the
-- buffer, whether it throws, and what `pa_simple_write` returns.
pub record ReceiveRound : Type 0 where
  pub datagram : List ℕ
  pub throws : Bool
  pub written : ℤ

unfoldable pub receive_round : Unit {0} → ReceiveRound → Turn (Unit {0}) Event
receive_round s r =
    let sound = write (take buffer_size r.datagram) in
    if r.throws
    then break s (cerr "Receiver exception: " ∷ [])
    else if is_neg r.written
    then break s (sound ∷ cerr "PulseAudio write error: " ∷ [])
    else next s (sound ∷ [])

unfoldable pub audio_receiver : List ReceiveRound → List Event
unfolding receive_round
audio_receiver rounds = (run receive_round tt rounds).events

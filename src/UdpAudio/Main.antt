-- ===== src/UdpAudio/Main.antt =====
-- UDPaudio/UDPaudio.cpp, `main`. `std::stoi` is a parameter, which throws where it gives `none`; an
-- exception in `main` is not caught and ends the program.
use Prim.Native.String.{String}
use eng_project.Base.{
  ℕ, suc, ◌-◌, ◌%◌, ◌^◌, Bool, Option, none, some, List, [], ◌∷◌, ◌++◌, ℤ, pos, negsuc, length,
  if◌then◌else◌, not,
}
use eng_project.UdpAudio.Stream
use eng_project.UdpAudio.Stream.{SendRound, ReceiveRound, audio_sender, audio_receiver}

abbrev pub Text : Type 0
Text = List ℕ

pub data Event : Type 0 where
  argc : ℕ → Event
  argv : (i : ℕ) → Text → Event
  cerr : String → Event
  sockets : (local_port : ℕ) → (receiver_ip : Text) → (receiver_port : ℕ) → Event
  sender : Stream.Event → Event
  receiver : Stream.Event → Event
  free_record : Event
  free_play : Event

-- How `main` ends, or that an exception ends the program.
pub data Exit : Type 0 where
  returned : (code : ℕ) → List Event → Exit
  terminated : List Event → Exit

abbrev pub after : List Event → Exit → Exit
after es (returned code fs) = returned code (es ++ fs)
after es (terminated fs) = terminated (es ++ fs)

-- An `int` stored in a `uint16_t`.
abbrev pub uint16 : ℤ → ℕ
uint16 (pos n) = n % 2 ^ 16
uint16 (negsuc n) = 2 ^ 16 - 1 - n % 2 ^ 16

-- What `main` meets: whether the sockets and the address can be made (else asio throws), whether
-- PulseAudio gives the two connections, and what the threads meet.
pub record World : Type 0 where
  pub sockets_open : Bool
  pub record_opens : Bool
  pub play_opens : Bool
  pub send_rounds : List SendRound
  pub receive_rounds : List ReceiveRound

-- `for (int i = 0; i < argc; ++i)`
unfoldable pub list_arguments : (i : ℕ) → List Text → List Event
list_arguments i [] = []
list_arguments i (arg ∷ args) = argv i arg ∷ list_arguments (suc i) args

unfoldable pub lift : (Stream.Event → Event) → List Stream.Event → List Event
lift thread [] = []
lift thread (e ∷ es) = thread e ∷ lift thread es

-- PulseAudio and the threads. The threads run side by side; their events are listed one thread after
-- the other.
unfoldable pub stream : World → Exit
unfolding lift
stream w =
    if not w.record_opens
    then returned 1 (cerr "PulseAudio record connection error: " ∷ [])
    else if not w.play_opens
    then returned 1 (cerr "PulseAudio playback connection error: " ∷ free_record ∷ [])
    else returned 0 (
        lift sender (audio_sender w.send_rounds)
        ++ (lift receiver (audio_receiver w.receive_rounds) ++ free_record ∷ free_play ∷ []))

module _ (stoi : Text → Option ℤ) where
  -- The part after the test of `argc`.
  unfoldable pub connect : (local_port receiver_ip receiver_port : Text) → World → Exit
  connect local_port receiver_ip receiver_port w = elim (stoi local_port) [
    | none ↦ terminated []
    | some local ↦ elim (stoi receiver_port) [
      | none ↦ terminated []
      | some remote ↦
          if w.sockets_open
          then after (sockets (uint16 local) receiver_ip (uint16 remote) ∷ []) (stream w)
          else terminated []
    ]
  ]

  abbrev usage : Exit
  usage = returned 1 (cerr "Usage: " ∷ [])

  unfoldable pub with_arguments : List Text → World → Exit
  unfolding connect
  with_arguments (program ∷ local_port ∷ receiver_ip ∷ receiver_port ∷ []) w =
      connect local_port receiver_ip receiver_port w
  with_arguments _ w = usage

  unfoldable pub main : List Text → World → Exit
  unfolding with_arguments list_arguments
  main args w = after (argc (length args) ∷ list_arguments 0 args) (with_arguments args w)

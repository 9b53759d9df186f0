-- ===== src/UdpAudio/Stream/Header.antt =====
-- What the receiver of UDPaudio plays of a packet.
use eng_project.Base.{
  ℕ, zero, suc, ◌+◌, ◌-◌, ◌/◌, ◌%◌, ◌≤◌, ◌≡◌, refl, ap, ap₂, ◌∙◌, Bool-cases, inl, inr, false, List,
  [], ◌∷◌, ◌++◌, map, is_neg, ltb, length, length-append, take, take-append_beyond, All, arith,
}
use eng_project.Base.Loop.{run-map}
use eng_project.UdpAudio.Stream.{
  buffer_size, Event, send_to, write, digits, to_string, SendRound, packet_data, send_round,
  audio_sender, ReceiveRound, receive_round, audio_receiver,
}

length-digits : (fuel n : ℕ) → length (digits fuel n) ≤ fuel
unfolding digits
length-digits zero n = omega arith
length-digits (suc fuel) n = elim (Bool-cases (ltb n 10)) [
  | inl last ↦ rw last (omega arith)
  | inr more ↦ rw more (
      omega (
        arith,
        length-digits fuel (n / 10),
        length-append (digits fuel (n / 10)) ((b'0' + n % 10) ∷ []),
      ))
]

length-to_string : (n : ℕ) → length (to_string n) ≤ 19
unfolding to_string
length-to_string n = length-digits 19 n

-- The datagrams that are sent, and what is given to PulseAudio, in order.
unfoldable pub sends : List Event → List (List ℕ)
sends [] = []
sends (send_to bytes ∷ es) = bytes ∷ sends es
sends (_ ∷ es) = sends es

unfoldable pub writes : List Event → List (List ℕ)
writes [] = []
writes (write bytes ∷ es) = bytes ∷ writes es
writes (_ ∷ es) = writes es

sends-append : (es fs : List Event) → sends (es ++ fs) ≡ sends es ++ sends fs
unfolding sends
sends-append [] fs = refl
sends-append (send_to bytes ∷ es) fs = ap (◌∷◌ bytes) (sends-append es fs)
sends-append (_ ∷ es) fs = sends-append es fs

writes-append : (es fs : List Event) → writes (es ++ fs) ≡ writes es ++ writes fs
unfolding writes
writes-append [] fs = refl
writes-append (write bytes ∷ es) fs = ap (◌∷◌ bytes) (writes-append es fs)
writes-append (_ ∷ es) fs = writes-append es fs

abbrev pub IsSent : SendRound → Type 0
IsSent r = (is_neg r.read ≡ false) × (r.throws ≡ false)

abbrev pub IsWritten : ReceiveRound → Type 0
IsWritten r = (r.throws ≡ false) × (is_neg r.written ≡ false)

abbrev packet : SendRound → List ℕ
packet r = packet_data r.timestamp r.buffer

send_round-sends :
    (u : Unit {0}) (r : SendRound)
    → Unit {0}
    → IsSent r
    → ((send_round u r).out ≡ false) × Unit {0} × (sends (send_round u r).events ≡ packet r ∷ [])
unfolding send_round sends
send_round-sends u r t h = rw (h.0, h.1) (refl, tt, refl)

receive_round-writes :
    (u : Unit {0}) (r : ReceiveRound)
    → Unit {0}
    → IsWritten r
    → ((receive_round u r).out ≡ false)
      × Unit {0}
      × (writes (receive_round u r).events ≡ take buffer_size r.datagram ∷ [])
unfolding receive_round writes
receive_round-writes u r t h = rw (h.0, h.1) (refl, tt, refl)

sends_all :
    (rounds : List SendRound) → All IsSent rounds → sends (audio_sender rounds) ≡ map packet rounds
unfolding audio_sender sends
sends_all rounds fine =
    (run-map send_round {P = λ u. Unit {0}} {Q = IsSent} sends packet refl sends-append
      send_round-sends tt rounds tt fine).2

abbrev cut : ReceiveRound → List ℕ
cut r = take buffer_size r.datagram

writes_all :
    (rounds : List ReceiveRound)
    → All IsWritten rounds
    → writes (audio_receiver rounds) ≡ map cut rounds
unfolding audio_receiver writes
writes_all rounds fine =
    (run-map receive_round {P = λ u. Unit {0}} {Q = IsWritten} writes cut refl writes-append
      receive_round-writes tt rounds tt fine).2

-- The time in decimal, a bar, and of the sound what there is room for behind them.
abbrev pub heard : SendRound → List ℕ
heard r = to_string r.timestamp ++ b'|' ∷ (take (4095 - length (to_string r.timestamp)) r.buffer)

cut_packet : (r : SendRound) → take buffer_size (packet r) ≡ heard r
unfolding packet_data
cut_packet r =
    let time : List ℕ = to_string r.timestamp in
    let room : buffer_size - length time ≡ suc (4095 - length time) =
      omega (arith, length-to_string r.timestamp) in
    take-append_beyond buffer_size time (b'|' ∷ r.buffer)
      (omega (arith, length-to_string r.timestamp))
    ∙ ap (λ (n : ℕ). time ++ take n (b'|' ∷ r.buffer)) room

cut_all :
    (rounds : List SendRound) (received : List ReceiveRound)
    → map (λ (r : ReceiveRound). r.datagram) received ≡ map packet rounds
    → map cut received ≡ map heard rounds
cut_all [] [] e = refl
cut_all [] (q ∷ received) e = cc
cut_all (r ∷ rounds) [] e = cc
cut_all (r ∷ rounds) (q ∷ received) e =
    let first : q.datagram ≡ packet r = cc in
    let others : map (λ (x : ReceiveRound). x.datagram) received ≡ map packet rounds = cc in
    ap₂ ◌∷◌ (ap (take buffer_size) first ∙ cut_packet r) (cut_all rounds received others)

-- The time is heard and the end of the sound is lost: if each round of the sender reads its buffer
-- and sends it, the datagrams arrive in order, and each write succeeds, then PulseAudio is given, in
-- place of each captured buffer, the decimal digits of the time, a bar, and the buffer without its
-- last bytes, as many as digits and bar have taken up.
pub time-heard :
    (rounds : List SendRound) (received : List ReceiveRound)
    → All IsSent rounds
    → All IsWritten received
    → map (λ (r : ReceiveRound). r.datagram) received ≡ sends (audio_sender rounds)
    → writes (audio_receiver received) ≡ map heard rounds
time-heard rounds received sent written arrived =
    writes_all received written ∙ cut_all rounds received (arrived ∙ sends_all rounds sent)

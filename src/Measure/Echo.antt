-- ===== src/Measure/Echo.antt =====
-- TCPMeasure/Basic: `send_data_with_metrics` of ClientBasicTCPM.cpp sends blocks that begin with the
-- time, and `handle_client` of MeasureTCP.cpp sends the time back. The figures that both print
-- (latency, bandwidth) are left out. Buffers are lists of 1024 bytes.
pub mod Acks
use Prim.Native.String.{String}
use eng_project.Base.{
  ℕ, suc, ◌+◌, ◌*◌, ◌^◌, ◌<◌, ◌≤◌, ◌≡◌, refl, ap, Bool, true, false, List, [], ◌∷◌, ◌++◌, map, ℤ,
  is_pos, is_minus_one, if◌then◌else◌, Received, got, count, payload, length, take, drop, replicate,
  All,
}
use eng_project.Base.Bytes.{le_bytes, of_le}
use eng_project.OnlineAv.Fragment.{overlay}

-- BUFFSIZE
abbrev pub buffsize : ℕ
buffsize = 1024

pub data Event : Type 0 where
  send : List ℕ → Event
  close : Event
  perror : String → Event

-- `memcpy(buffer, &ms_timestamp, sizeof(ms_timestamp))`: the time goes over the first 8 bytes.
unfoldable pub stamp : ℕ → List ℕ → List ℕ
stamp ms_timestamp buffer = le_bytes 8 ms_timestamp ++ drop 8 buffer

-- A round of the client: the clock, and what its `send` returns.
pub record Beat : Type 0 where
  pub ms_timestamp : ℕ
  pub sent : ℤ

-- `while (!stop_streaming)`, over the rounds that begin before the flag is set. Whatever `recv` does
-- with the acknowledgment, the loop goes on.
unfoldable pub send_loop : List ℕ → List Beat → List Event
unfolding stamp
send_loop buffer [] = []
send_loop buffer (b ∷ bs) =
    let stamped = stamp b.ms_timestamp buffer in
    let rest = send_loop stamped bs in
    if is_minus_one b.sent then send stamped ∷ perror "Send failed" ∷ [] else send stamped ∷ rest

-- `send_data_with_metrics`: the block is filled with 'A' first.
unfoldable pub send_data_with_metrics : List Beat → List Event
unfolding send_loop
send_data_with_metrics beats = send_loop (replicate buffsize b'A') beats

-- A round of the server: what `recv` does, and what the `send` of the acknowledgment returns.
pub record Round : Type 0 where
  pub received : Received
  pub sent : ℤ

-- `while (true)`: the round ends the loop by a `break` if nothing came or the send failed. The list
-- is the rounds that the thread gets to.
unfoldable pub ack_loop : List ℕ → List Round → List Event
ack_loop buffer [] = []
ack_loop buffer (r ∷ rs) =
    let filled = overlay buffsize (payload r.received) buffer in
    let ack = take 8 filled in
    let rest = ack_loop filled rs in
    if is_pos (count r.received)
    then (if is_minus_one r.sent
        then send ack ∷ perror "Send acknowledgment failed" ∷ close ∷ []
        else send ack ∷ rest)
    else close ∷ []

-- `handle_client`; `buffer` is what the uninitialised array holds.
unfoldable pub handle_client : List ℕ → List Round → List Event
unfolding ack_loop
handle_client buffer rounds = ack_loop buffer rounds

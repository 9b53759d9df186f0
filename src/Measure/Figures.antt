-- ===== src/Measure/Figures.antt =====
-- TCPMeasure/Basic: the figures that `send_data_with_metrics` of ClientBasicTCPM.cpp and `handle_client`
-- of MeasureTCP.cpp print, from the rounds of their loops. Both count bytes in an `int`; `none` is its
-- overflow, which is undefined. A time point of `steady_clock` is the number of its nanoseconds. A
-- bandwidth is the exact quotient; how C++ rounds and prints it is left out.
pub mod Exact
pub mod Overflow
use eng_project.Base.{
  ℕ, suc, ◌+◌, ◌-◌, ◌*◌, ◌/◌, ◌%◌, ◌^◌, Option, none, some, List, [], ◌∷◌, ◌++◌, ℤ, pos, negsuc,
  is_pos, is_minus_one, leb, ltb, ◌==◌, if◌then◌else◌, Received, count, payload, length, ◌>>=◌,
}
use eng_project.Measure.Echo.{buffsize}

abbrev pub int_max : ℕ
int_max = 2 ^ 31 - 1

-- `+=` on an `int` that is not negative.
abbrev pub add_int : ℕ → ℕ → Option ℕ
add_int a b = if leb (a + b) int_max then some (a + b) else none

-- `end - start` of two time points.
unfoldable pub between : (start end : ℕ) → ℤ
between start end = if leb start end then pos (end - start) else negsuc (start - end - 1)

-- `duration_cast` to a unit of so many nanoseconds, which rounds towards zero.
unfoldable pub duration_cast : (unit : ℕ) → ℤ → ℤ
duration_cast unit (pos n) = pos (n / unit)
duration_cast unit (negsuc n) = let q = suc n / unit in if q == 0 then pos 0 else negsuc (q - 1)

-- What an `int` holds when it is given a wider number.
unfoldable pub to_int : ℤ → ℤ
to_int (pos n) = let m = n % 2 ^ 32 in if ltb m (2 ^ 31) then pos m else negsuc (2 ^ 32 - 1 - m)
to_int (negsuc n) = let m = n % 2 ^ 32 in if ltb m (2 ^ 31) then negsuc m else pos (2 ^ 32 - 1 - m)

-- A quotient of two `double`.
pub data Rate : Type 0 where
  ratio minus_ratio : (numerator denominator : ℕ) → Rate
  infinite not_a_number : Rate

-- `(bytes / 1024.0) / seconds`.
unfoldable pub kb_per_second : (bytes : ℕ) (seconds : ℤ) → Rate
kb_per_second bytes (pos s) =
    if s == 0 then (if bytes == 0 then not_a_number else infinite) else ratio bytes (1024 * s)
kb_per_second bytes (negsuc s) = minus_ratio bytes (1024 * suc s)

pub data Figure : Type 0 where
  latency : (ms : ℤ) → Figure
  bandwidth average_bandwidth : Rate → Figure

-- A round of the client: the clock at its start, what `send` returns, what the `recv` of the
-- acknowledgment does, and the clock after it.
pub record Pulse : Type 0 where
  pub timestamp : ℕ
  pub sent : ℤ
  pub ack : Received
  pub ack_time : ℕ

unfoldable pub latencies : Pulse → List Figure
latencies p =
    if is_pos (count p.ack)
    then latency (to_int (duration_cast (10 ^ 6) (between p.timestamp p.ack_time))) ∷ []
    else []

unfoldable pub average : (start_time data_sent end_time : ℕ) → Figure
average start_time data_sent end_time =
    average_bandwidth
      (kb_per_second data_sent (duration_cast (10 ^ 9) (between start_time end_time)))

-- What `send_data_with_metrics` prints, over the rounds that begin before the flag is set.
unfoldable pub client_figures :
    (start_time data_sent : ℕ) → List Pulse → (end_time : ℕ) → Option (List Figure)
client_figures start_time data_sent [] end_time = some (average start_time data_sent end_time ∷ [])
client_figures start_time data_sent (p ∷ ps) end_time =
    let rest = add_int data_sent buffsize >>= λ more.
    client_figures start_time more ps end_time >>= λ figures. some (latencies p ++ figures) in
    if is_minus_one p.sent then some (average start_time data_sent end_time ∷ []) else rest

-- A round of the server: what `recv` does, what `send` returns, and the clock after it.
pub record Tick : Type 0 where
  pub received : Received
  pub sent : ℤ
  pub current_time : ℕ

-- What `handle_client` prints.
unfoldable pub server_figures : (start_time total_bytes : ℕ) → List Tick → Option (List Figure)
server_figures start_time total_bytes [] = some []
server_figures start_time total_bytes (t ∷ ts) =
    let rest = add_int total_bytes (length (payload t.received)) >>= λ total.
    server_figures start_time total ts >>= λ figures.
    let elapsed_time = duration_cast (10 ^ 9) (between start_time t.current_time) in
    some (bandwidth (kb_per_second total elapsed_time) ∷ figures) in
    if is_pos (count t.received) then (if is_minus_one t.sent then some [] else rest) else some []

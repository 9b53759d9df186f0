-- ===== src/Measure/Figures/Overflow.antt =====
-- How far the two programs of TCPMeasure/Basic can count, and what they print until then.
use eng_project.Base.{
  ℕ, ◌+◌, ◌-◌, ◌*◌, ◌/◌, ◌^◌, ◌≤◌, ◌<◌, ◌≡◌, ◌∙◌, append_assoc, Bool-cases, none, some, inl, inr,
  true, false, List, [], ◌∷◌, ◌++◌, is_pos, is_minus_one, leb, ltb, if◌then◌else◌, count, payload,
  length, ◌>>=◌, All, arith,
}
use eng_project.Measure.Echo.{buffsize}
use eng_project.Measure.Figures.{
  int_max, between, duration_cast, kb_per_second, Rate, Figure, bandwidth, average_bandwidth,
  latencies, average, Pulse, client_figures, Tick, server_figures,
}
use eng_project.Measure.Figures.Exact.{
  Within, IsRate, Took, no_more, unanswered, answered, Counted, one_more, milliseconds, seconds,
  duration_cast-between, to_int-small, kb_per_second-IsRate,
}

-- The bytes that came in.
unfoldable pub total : List Tick → ℕ
total [] = 0
total (t ∷ ts) = length (payload t.received) + total ts

-- A round in which bytes come and the acknowledgment goes out; the clock does not go back.
abbrev pub IsAnswered : (start_time : ℕ) → Tick → Type 0
IsAnswered start_time t =
    (is_pos (count t.received) ≡ true)
    × (is_minus_one t.sent ≡ false)
    × (start_time ≤ t.current_time)

kb_per_second-between :
    (bytes start end : ℕ)
    → start ≤ end
    → IsRate bytes
        ((end - start) / 10 ^ 9)
        (kb_per_second bytes (duration_cast (10 ^ 9) (between start end)))
kb_per_second-between bytes start end le =
    rw (duration_cast-between (10 ^ 9) start end le)
      (kb_per_second-IsRate bytes ((end - start) / 10 ^ 9))

-- The figures of a server that can count as far as it likes.
unbounded : (start_time before : ℕ) → List Tick → List Figure
unbounded start_time before [] = []
unbounded start_time before (t ∷ ts) =
    let bytes = before + length (payload t.received) in
    bandwidth (kb_per_second bytes (duration_cast (10 ^ 9) (between start_time t.current_time)))
    ∷ unbounded start_time bytes ts

unbounded-Counted :
    (start_time before : ℕ) (ts : List Tick)
    → All (IsAnswered start_time) ts
    → Counted start_time before ts (unbounded start_time before ts)
unfolding unbounded
unbounded-Counted start_time before [] h = no_more
unbounded-Counted start_time before (t ∷ ts) h =
    let le : start_time ≤ t.current_time = h.0.2 in
    one_more ((t.current_time - start_time) / 10 ^ 9) (seconds start_time t.current_time le)
      (kb_per_second-between (before + length (payload t.received)) start_time t.current_time le)
      (unbounded-Counted start_time (before + length (payload t.received)) ts h.1)

server_from :
    (start_time before : ℕ) (ts : List Tick)
    → before ≤ int_max
    → All (IsAnswered start_time) ts
    → server_figures start_time before ts
      ≡ (if leb (before + total ts) int_max then some (unbounded start_time before ts) else none)
unfolding server_figures total unbounded
server_from start_time before [] le h = ground arith
server_from start_time before (t ∷ ts) le h =
    rw (h.0.0, h.0.1)
      (elim (Bool-cases (leb bytes int_max)) [
        | inl fits ↦
            rw (fits, ◌>>=◌) (ground (arith, server_from start_time bytes ts (ground arith) h.1))
        | inr over ↦ rw (over, ◌>>=◌) (ground arith)
      ])
  where
    bytes : ℕ
    bytes = before + length (payload t.received)

-- A round in which the block is sent; the clock does not go back, and the wait for an acknowledgment
-- is over within 2 ^ 31 milliseconds.
abbrev pub IsSent : Pulse → Type 0
IsSent p =
    (is_minus_one p.sent ≡ false)
    × (p.timestamp ≤ p.ack_time)
    × (p.ack_time < p.timestamp + 2 ^ 31 * 10 ^ 6)

-- All latencies.
waits : List Pulse → List Figure
waits [] = []
waits (p ∷ ps) = latencies p ++ waits ps

waits-Took : (ps : List Pulse) → All IsSent ps → Took ps (waits ps)
unfolding waits latencies
waits-Took [] h = no_more
waits-Took (p ∷ ps) h =
    let le : p.timestamp ≤ p.ack_time = h.0.1 in
    let lt : p.ack_time < p.timestamp + 2 ^ 31 * 10 ^ 6 = h.0.2 in
    elim (Bool-cases (is_pos (count p.ack))) [
      | inl came ↦
          rw
            (
              came,
              duration_cast-between (10 ^ 6) p.timestamp p.ack_time le,
              to_int-small ((p.ack_time - p.timestamp) / 10 ^ 6) (omega arith),
            )
            (answered ((p.ack_time - p.timestamp) / 10 ^ 6) came
              (milliseconds p.timestamp p.ack_time le) (waits-Took ps h.1))
      | inr none_came ↦ rw none_came (unanswered none_came (waits-Took ps h.1))
    ]

client_from :
    (start_time before : ℕ) (ps : List Pulse) (end_time : ℕ)
    → before ≤ int_max
    → All IsSent ps
    → client_figures start_time before ps end_time ≡ (
        if leb (before + buffsize * length ps) int_max
        then some (waits ps ++ average start_time (before + buffsize * length ps) end_time ∷ [])
        else none)
unfolding client_figures waits
client_from start_time before [] end_time le h = ground arith
client_from start_time before (p ∷ ps) end_time le h =
    rw h.0.0 (elim (Bool-cases (leb (before + buffsize) int_max)) [
      | inl fits ↦
          rw (fits, ◌>>=◌)
            (ground (
              arith,
              client_from start_time (before + buffsize) ps end_time (ground arith) h.1,
              append_assoc (latencies p) (waits ps)
                  (average start_time (before + buffsize * length (p ∷ ps)) end_time ∷ []),
            ))
      | inr over ↦ rw (over, ◌>>=◌) (ground arith)
    ])

-- The programs of TCPMeasure/Basic print what they should and count right up to 2 ^ 31 - 1 bytes,
-- if the clock does not go back, bytes come in each round, all `send` succeed and no wait for an
-- acknowledgment takes 2 ^ 31 milliseconds or more. After each `recv` the server prints the rate
-- of all bytes so far by the whole seconds since the start. The client, which has sent one block
-- of 1024 bytes in each round, prints for each acknowledgment the whole milliseconds that it took,
-- and in the end the rate of all bytes by the whole seconds of the run. A rate is in KB of 1024
-- bytes per second; within the first second it is infinite, or not a number if there are no bytes.
-- But if more than 2 ^ 31 - 1 bytes have come to the server, or 2 ^ 21 blocks or more were sent by
-- the client, an `int` overflows.
pub figures-exact :
    (server_start client_start : ℕ) (ticks : List Tick) (pulses : List Pulse) (end_time : ℕ)
    → All (IsAnswered server_start) ticks
    → All IsSent pulses
    → client_start ≤ end_time
    → ((figures : List Figure) × Counted server_start 0 ticks figures
        × (server_figures server_start 0 ticks
            ≡ (if leb (total ticks) int_max then some figures else none)))
      × ((figures : List Figure) × (s : ℕ) × (rate : Rate) × Took pulses figures
          × Within (10 ^ 9) client_start s end_time
          × IsRate (1024 * length pulses) s rate
          × (client_figures client_start 0 pulses end_time ≡ (
              if ltb (length pulses) (2 ^ 21)
              then some (figures ++ average_bandwidth rate ∷ [])
              else none)))
unfolding average
figures-exact server_start client_start ticks pulses end_time steady sent le = (
  (
    unbounded server_start 0 ticks,
    unbounded-Counted server_start 0 ticks steady,
    server_from server_start 0 ticks (omega arith) steady ∙ ground arith,
  ),
  (
    waits pulses,
    (end_time - client_start) / 10 ^ 9,
    kb_per_second (1024 * length pulses) (duration_cast (10 ^ 9) (between client_start end_time)),
    waits-Took pulses sent,
    seconds client_start end_time le,
    kb_per_second-between (1024 * length pulses) client_start end_time le,
    client_from client_start 0 pulses end_time (omega arith) sent ∙ ground arith,
  ),
)

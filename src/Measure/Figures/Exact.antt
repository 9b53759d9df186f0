-- ===== src/Measure/Figures/Exact.antt =====
-- What the figures of TCPMeasure/Basic should be, said of the clocks and the bytes alone.
use eng_project.Base.{
  ℕ, suc, ◌+◌, ◌-◌, ◌*◌, ◌/◌, ◌^◌, ◌≤◌, ◌<◌, ◌≡◌, refl, Bool-cases, inl, inr, true, false, List, [],
  ◌∷◌, pos, is_pos, count, payload, length, ◌==◌, arith,
}
use eng_project.Measure.Figures.{
  between, duration_cast, to_int, Rate, ratio, infinite, not_a_number, kb_per_second, Figure,
  latency, bandwidth, Pulse, Tick,
}

-- From `start` to `end` are `n` whole units of time.
abbrev pub Within : (unit start n end : ℕ) → Type 0
Within unit start n end = (start + n * unit ≤ end) × (end < start + suc n * unit)

-- So many KB per second.
pub data IsRate (bytes seconds : ℕ) : Rate → Type 0 where
  is_ratio :
      {n d : ℕ}
      → 0 < seconds
      → 0 < d
      → n * (1024 * seconds) ≡ bytes * d
      → IsRate bytes seconds (ratio n d)
  in_no_time : seconds ≡ 0 → 0 < bytes → IsRate bytes seconds infinite
  nothing_yet : seconds ≡ 0 → bytes ≡ 0 → IsRate bytes seconds not_a_number

-- These are the whole milliseconds between block and acknowledgment, for the rounds that had one.
pub data Took : List Pulse → List Figure → Type 0 where
  no_more : Took [] []
  unanswered :
      {p : Pulse} {ps : List Pulse} {figures : List Figure}
      → is_pos (count p.ack) ≡ false
      → Took ps figures
      → Took (p ∷ ps) figures
  answered :
      {p : Pulse} {ps : List Pulse} {figures : List Figure} (ms : ℕ)
      → is_pos (count p.ack) ≡ true
      → Within (10 ^ 6) p.timestamp ms p.ack_time
      → Took ps figures
      → Took (p ∷ ps) (latency (pos ms) ∷ figures)

-- These are the bytes so far by the whole seconds so far, for each round.
pub data Counted (start_time : ℕ) : (before : ℕ) → List Tick → List Figure → Type 0 where
  no_more : {before : ℕ} → Counted start_time before [] []
  one_more :
      {before : ℕ} {t : Tick} {ts : List Tick} {rate : Rate} {figures : List Figure} (seconds : ℕ)
      → Within (10 ^ 9) start_time seconds t.current_time
      → IsRate (before + length (payload t.received)) seconds rate
      → Counted start_time (before + length (payload t.received)) ts figures
      → Counted start_time before (t ∷ ts) (bandwidth rate ∷ figures)

pub milliseconds :
    (start end : ℕ) → start ≤ end → Within (10 ^ 6) start ((end - start) / 10 ^ 6) end
milliseconds start end le = (omega arith, omega arith)

pub seconds : (start end : ℕ) → start ≤ end → Within (10 ^ 9) start ((end - start) / 10 ^ 9) end
seconds start end le = (omega arith, omega arith)

pub duration_cast-between :
    (unit start end : ℕ)
    → start ≤ end
    → duration_cast unit (between start end) ≡ pos ((end - start) / unit)
unfolding duration_cast between
duration_cast-between unit start end le = ground arith

pub to_int-small : (n : ℕ) → n < 2 ^ 31 → to_int (pos n) ≡ pos n
unfolding to_int
to_int-small n lt = ground arith

pub kb_per_second-IsRate : (bytes s : ℕ) → IsRate bytes s (kb_per_second bytes (pos s))
unfolding kb_per_second
kb_per_second-IsRate bytes s = elim (Bool-cases (s == 0)) [
  | inl none ↦ elim (Bool-cases (bytes == 0)) [
    | inl nothing ↦ rw (none, nothing) (nothing_yet (ground arith) (ground arith))
    | inr some ↦ rw (none, some) (in_no_time (ground arith) (ground arith))
  ]
  | inr more ↦ rw more (is_ratio (ground arith) (ground arith) refl)
]

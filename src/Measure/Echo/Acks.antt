-- ===== src/Measure/Echo/Acks.antt =====
-- What the server of TCPMeasure/Basic acknowledges.
use eng_project.Base.{
  take-append_beyond, ℕ, ◌<◌, ◌++◌, ◌-◌, ◌≡◌, refl, ap, false, List, [], ◌∷◌, map, pos,
  is_minus_one, got, length, take, drop, replicate, All, arith, ◌∙◌, take-append_of_length,
  length-append, length-drop, length-replicate,
}
use eng_project.Base.Bytes.{le_bytes, length-le_bytes}
use eng_project.OnlineAv.Fragment.{overlay, overlay_full, overlay_short}
use eng_project.Measure.Echo.{
  buffsize, Event, send, stamp, Beat, send_loop, send_data_with_metrics, Round, ack_loop,
  handle_client,
}

-- What is sent, in order.
unfoldable pub blocks : List Event → List (List ℕ)
blocks [] = []
blocks (send bytes ∷ es) = bytes ∷ blocks es
blocks (_ ∷ es) = blocks es

-- One `recv` that gets just this block; the acknowledgment goes out.
abbrev pub arrive : List ℕ → Round
arrive block = record { received = got block; sent = pos 8 }

abbrev pub IsSent : Beat → Type 0
IsSent b = is_minus_one b.sent ≡ false

length-stamp :
    (t : ℕ) (buffer : List ℕ) → length buffer ≡ buffsize → length (stamp t buffer) ≡ buffsize
unfolding stamp
length-stamp t buffer full = omega (
  arith,
  full,
  length-append (le_bytes 8 t) (drop 8 buffer),
  length-le_bytes 8 t,
  length-drop 8 buffer,
)

take-stamp : (t : ℕ) (buffer : List ℕ) → take 8 (stamp t buffer) ≡ le_bytes 8 t
unfolding stamp
take-stamp t buffer = take-append_of_length 8 (le_bytes 8 t) (drop 8 buffer) (length-le_bytes 8 t)

pub ack_arrived :
    (t : ℕ) (sent old : List ℕ) (rs : List Round)
    → length sent ≡ buffsize
    → length old ≡ buffsize
    → blocks (ack_loop old (arrive (stamp t sent) ∷ rs))
      ≡ le_bytes 8 t ∷ blocks (ack_loop (stamp t sent) rs)
unfolding blocks ack_loop
ack_arrived t sent old rs full old_full =
    rw
      (
        overlay_full buffsize (stamp t sent) old (length-stamp t sent full) old_full,
        length-stamp t sent full,
        take-stamp t sent,
      )
      refl

echo_from :
    (beats : List Beat) (sent old : List ℕ)
    → length sent ≡ buffsize
    → length old ≡ buffsize
    → All IsSent beats
    → blocks (ack_loop old (map arrive (blocks (send_loop sent beats))))
      ≡ map (λ b. le_bytes 8 b.ms_timestamp) beats
unfolding blocks ack_loop send_loop
echo_from [] sent old full old_full h = refl
echo_from (b ∷ bs) sent old full old_full h = rw h.0 (
    ack_arrived b.ms_timestamp sent old
      (map arrive (blocks (send_loop (stamp b.ms_timestamp sent) bs))) full old_full
    ∙ ap (◌∷◌ (le_bytes 8 b.ms_timestamp)) (
        echo_from bs (stamp b.ms_timestamp sent) (stamp b.ms_timestamp sent)
          (length-stamp b.ms_timestamp sent full) (length-stamp b.ms_timestamp sent full) h.1))

-- The times come back: if each `send` of the client succeeds and each `recv` of the server gets
-- just one block, the server acknowledges each block with the 8 bytes of the time at which it was
-- made, in the order of sending, whatever its buffer held.
pub times-come_back :
    (beats : List Beat) (old : List ℕ)
    → length old ≡ buffsize
    → All IsSent beats
    → blocks (handle_client old (map arrive (blocks (send_data_with_metrics beats))))
      ≡ map (λ b. le_bytes 8 b.ms_timestamp) beats
unfolding handle_client send_data_with_metrics
times-come_back beats old old_full h =
    echo_from beats (replicate buffsize b'A') old (length-replicate {A = ℕ} buffsize b'A') old_full
      h

length-overlay_short :
    (bytes old : List ℕ)
    → length bytes < 8
    → length old ≡ buffsize
    → length (overlay buffsize bytes old) ≡ buffsize
length-overlay_short bytes old short full = rw (overlay_short buffsize bytes old (omega arith)) (
    omega
      (arith, full, length-append bytes (drop (length bytes) old), length-drop (length bytes) old))

stale_ack :
    (bytes old : List ℕ)
    → length bytes < 8
    → take 8 (overlay buffsize bytes old)
      ≡ bytes ++ take (8 - length bytes) (drop (length bytes) old)
stale_ack bytes old short =
    rw (overlay_short buffsize bytes old (omega arith))
      (take-append_beyond 8 bytes (drop (length bytes) old) (omega arith))

-- A short read is answered with old bytes: if `recv` gets some bytes, but fewer than the 8 of a
-- time, the server acknowledges a time made of them and of what its buffer held in their place
-- before, and goes on.
short_read-stale :
    (b : ℕ) (bytes old : List ℕ) (rs : List Round)
    → length (b ∷ bytes) < 8
    → length old ≡ buffsize
    → (filled : List ℕ) × (blocks (handle_client old (arrive (b ∷ bytes) ∷ rs))
        ≡ ((b ∷ bytes) ++ take (8 - length (b ∷ bytes)) (drop (length (b ∷ bytes)) old))
          ∷ blocks (handle_client filled rs))
      × (length filled ≡ buffsize)
unfolding handle_client blocks ack_loop
short_read-stale b bytes old rs short full = (
  overlay buffsize (b ∷ bytes) old,
  ap (λ (a : List ℕ). a ∷ blocks (ack_loop (overlay buffsize (b ∷ bytes) old) rs))
      (stale_ack (b ∷ bytes) old short),
  length-overlay_short (b ∷ bytes) old short full,
)

-- ===== src/Client/Connect/Retries.antt =====
-- When the connections succeed, how long that takes, and which sockets are left open.
use eng_project.Base.{
  ℕ, zero, suc, ◌+◌, ◌*◌, ◌<◌, ◌≤◌, ◌≡◌, refl, ap, Bool, true, false, ℤ, pos, negsuc, is_neg,
  is_pos, if◌then◌else◌, inl, inr, arith, subst, dec_lt, ◌∙◌, Bool-cases,
}
use eng_project.Client.Event.{eq_ℤ, closes, closes-append, slept}
use eng_project.Client.Connect.{
  Attempt, no_socket, bad_address, refused, connected, connect_server, retry_view, made,
  connect_view, Texts,
}

-- The descriptor of a round, if one was made.
abbrev pub opens : ℤ → Attempt → ℕ
opens s no_socket = 0
opens s (bad_address fd) = if eq_ℤ (pos fd) s then 1 else 0
opens s (refused fd) = if eq_ℤ (pos fd) s then 1 else 0
opens s (connected fd) = if eq_ℤ (pos fd) s then 1 else 0

-- The rounds that are made, as long as no connection succeeds.
abbrev pub opened : ℤ → (ℕ → Attempt) → ℕ → ℕ
opened s attempt zero = 0
opened s attempt (suc n) = elim (attempt n) [
  | no_socket ↦ opened s attempt n
  | bad_address fd ↦ opens s (bad_address fd) + opened s attempt n
  | refused fd ↦ opens s (refused fd) + opened s attempt n
  | connected fd ↦ opens s (connected fd)
]

abbrev pub returned : ℤ → ℤ → ℕ
returned s r = if eq_ℤ r s then 1 else 0

-- No socket is lost: of the rounds of `connect_server`, whatever happens in them, each made the
-- descriptor `fd` as often as the function closes it, once more if it returns it.
pub connect_server-no_leak :
    (attempt : ℕ → Attempt) (delay_second retries fd : ℕ)
    → opened (pos fd) attempt retries
      ≡ closes (pos fd) (connect_server attempt delay_second retries).events
        + returned (pos fd) (connect_server attempt delay_second retries).result
unfolding connect_server closes
connect_server-no_leak attempt delay_second zero fd = refl
connect_server-no_leak attempt delay_second (suc n) fd =
    ground (arith, connect_server-no_leak attempt delay_second n fd)

abbrev pub IsConnected : Attempt → Type 0
IsConnected a = (fd : ℕ) × (a ≡ connected fd)

-- Retrying helps: if the round with `k` retries left would connect, for some `k` below the number of
-- retries, then `connect_server` returns a descriptor, after at most one delay for each round
-- before that one.
pub connect_server-succeeds :
    (attempt : ℕ → Attempt) (delay_second retries k fd : ℕ)
    → k < retries
    → attempt k ≡ connected fd
    → (is_neg (connect_server attempt delay_second retries).result ≡ false)
      × (slept (connect_server attempt delay_second retries).events + delay_second * suc k
          ≤ delay_second * retries)
unfolding connect_server slept
connect_server-succeeds attempt delay_second zero k fd lt e = elim lt [ ]
connect_server-succeeds attempt delay_second (suc n) k fd lt e = elim (dec_lt k n) [
  | yes below ↦ ground (arith, connect_server-succeeds attempt delay_second n k fd below e)
  | no last ↦
      let now : attempt n ≡ connected fd =
        subst (λ (m : ℕ). attempt m ≡ connected fd) (omega arith) e in
      ground (arith, ap (λ (m : ℕ). delay_second * suc m) (same k n last lt))
]
  where
    same : (k n : ℕ) → ¬ (k < n) → k < suc n → k ≡ n
    same k n last lt = omega arith

retry_view-open :
    (texts : Texts) (connects : ℕ → Bool) (delay_second n : ℕ) (fd : ℤ)
    → closes fd (retry_view texts connects delay_second n).events ≡ 0
unfolding retry_view closes
retry_view-open texts connects delay_second zero fd = refl
retry_view-open texts connects delay_second (suc n) fd =
    ground (arith, retry_view-open texts connects delay_second n fd)

retry_view-fails :
    (texts : Texts) (connects : ℕ → Bool) (delay_second n : ℕ)
    → ((k : ℕ) → 0 < k → k < n → connects k ≡ false)
    → is_pos (retry_view texts connects delay_second n).retries ≡ false
unfolding retry_view
retry_view-fails texts connects delay_second zero h = refl
retry_view-fails texts connects delay_second (suc zero) h = ground arith
retry_view-fails texts connects delay_second (suc (suc n)) h =
    rw (h (suc n) (omega arith) (omega arith), retry_view)
      (retry_view-fails texts connects delay_second (suc n)
        (λ k positive lt. h k positive (omega arith)))

-- The last round does not count: if `connect` fails in every round in which retries are left
-- afterwards, `main` goes on with no socket for the visualizer and never closes the one that it
-- made, also where the last `connect` succeeds.
pub last_attempt-discarded :
    (texts : Texts) (connects : ℕ → Bool) (sockfd delay_second max_retries : ℕ)
    → ((k : ℕ) → 0 < k → k < max_retries → connects k ≡ false)
    → ((connect_view texts (made sockfd) connects delay_second max_retries).result ≡ negsuc 0)
      × (closes
            (pos sockfd)
            (connect_view texts (made sockfd) connects delay_second max_retries).events
          ≡ 0)
unfolding connect_view closes
last_attempt-discarded texts connects sockfd delay_second max_retries h =
    rw (retry_view-fails texts connects delay_second max_retries h) (
      refl,
      closes-append (pos sockfd) (retry_view texts connects delay_second max_retries).events _
          ∙ rw (retry_view-open texts connects delay_second max_retries (pos sockfd)),
    )

retry_view-connects :
    (texts : Texts) (connects : ℕ → Bool) (delay_second n k : ℕ)
    → 0 < k
    → k < n
    → connects k ≡ true
    → is_pos (retry_view texts connects delay_second n).retries ≡ true
unfolding retry_view
retry_view-connects texts connects delay_second zero k positive lt e = elim lt [ ]
retry_view-connects texts connects delay_second (suc zero) k positive lt e = absurd (omega arith)
retry_view-connects texts connects delay_second (suc (suc n)) k positive lt e =
    elim (Bool-cases (connects (suc n))) [
      | inl now ↦ rw (now, retry_view)
      | inr not_yet ↦
          rw (not_yet, retry_view)
            (retry_view-connects texts connects delay_second (suc n) k positive
              (ground (arith, e, not_yet)) e)
    ]

-- Every other round counts: if `connect` succeeds in a round in which retries are left afterwards,
-- `main` goes on with the socket that it made for the visualizer.
view_connected :
    (texts : Texts) (connects : ℕ → Bool) (sockfd delay_second max_retries k : ℕ)
    → 0 < k
    → k < max_retries
    → connects k ≡ true
    → (connect_view texts (made sockfd) connects delay_second max_retries).result ≡ pos sockfd
unfolding connect_view
view_connected texts connects sockfd delay_second max_retries k positive lt e =
    rw (retry_view-connects texts connects delay_second max_retries k positive lt e)

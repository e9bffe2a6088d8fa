-- ===== src/Router/Send/Attempts.antt =====
-- How often a call sends its request.
use paperbridge.Prelude.{
  Bool-cases, arith, inl, inr, ltb, refl, some, true, ℕ, ◌%◌, ◌+◌, ◌==◌, ◌^◌, ◌≡◌, ◌≤◌,
}
use paperbridge.Router.State.{
  Call, Phase, Router, abandoned, admitted, cancelled, cooldown_remaining, cooling, delivered,
  failed, permitted, queued, released, sent, sleeping, extending,
}
use paperbridge.Router.Send.{
  Reply, advance, answer, cancel, cool, drop_at, is_rate_limited, limited, receive, response,
  send_or_requeue, transport_error, turn,
}
use paperbridge.Router.Send.Permits.{After}

-- What the number of attempts is in each phase. A rate-limited response is delivered only after the
-- second attempt.
abbrev pub AttemptsAt : ℕ → Phase → Type 0
AttemptsAt attempt cooling = attempt ≤ 1
AttemptsAt attempt (sleeping started deadline) = attempt ≤ 1
AttemptsAt attempt (queued cooldown_ms queued_at) = attempt ≤ 1
AttemptsAt attempt (admitted cooldown_ms queued_at) = attempt ≤ 1
AttemptsAt attempt (permitted cooldown_ms queued_at) = attempt ≤ 1
AttemptsAt attempt (sent cooldown_ms queue_ms started_at) = (1 ≤ attempt) × (attempt ≤ 2)
AttemptsAt attempt (extending status deadline) = (1 ≤ attempt) × (attempt ≤ 2)
AttemptsAt attempt (delivered status) =
    (1 ≤ attempt) × (attempt ≤ 2) × (is_rate_limited status ≡ true → attempt ≡ 2)
AttemptsAt attempt released = attempt ≤ 2
AttemptsAt attempt failed = attempt ≤ 2
AttemptsAt attempt cancelled = attempt ≤ 1
AttemptsAt attempt abandoned = (1 ≤ attempt) × (attempt ≤ 2)

abbrev pub IsCall : Call → Type 0
IsCall c = AttemptsAt c.attempt c.phase

-- A step keeps the bounds, and the counter of the attempts grows by what the call's own grows.
abbrev pub Counted : Call → Router → Call → Router → Type 0
Counted c r c' r' =
    IsCall c'
    × ((r'.metrics.attempts + c.attempt) % 2 ^ 64 ≡ (r.metrics.attempts + c'.attempt) % 2 ^ 64)

send_or_requeue-Counted :
    (now cooldown_ms queued_at : ℕ) (c : Call) (r : Router)
    → c.attempt ≤ 1
    → After (Counted c r) (some (send_or_requeue now cooldown_ms queued_at c r))
unfolding send_or_requeue
send_or_requeue-Counted now cooldown_ms queued_at c r few =
    elim (Bool-cases (cooldown_remaining (r.origins c.origin) now == 0)) [
      | inl clear ↦ rw clear ((omega arith, omega arith), omega arith)
      | inr cold ↦ rw cold (few, refl)
    ]

limited-Counted :
    (status deadline : ℕ) (c : Call) (r : Router)
    → 1 ≤ c.attempt
    → c.attempt ≤ 2
    → After (Counted c r) (some (limited status deadline c r))
unfolding limited
limited-Counted status deadline c r some_sent few = elim (Bool-cases (c.attempt == 1)) [
  | inl first ↦ rw first (ground arith, refl)
  | inr second ↦ rw second ((some_sent, few, (λ hit. ground arith)), refl)
]

receive-Counted :
    (now cooldown_ms queue_ms started_at : ℕ) (reply : Reply) (c : Call) (r : Router)
    → 1 ≤ c.attempt
    → c.attempt ≤ 2
    → After (Counted c r) (some (receive now cooldown_ms queue_ms started_at reply c r))
unfolding receive answer
receive-Counted now cooldown_ms queue_ms started_at transport_error c r some_sent few = (few, refl)
receive-Counted now cooldown_ms queue_ms started_at (response status headers) c r some_sent few =
    elim (Bool-cases (is_rate_limited status)) [
      | inl hit ↦ rw hit ((some_sent, few), refl)
      | inr fine ↦ rw fine ((some_sent, few, (λ hit. ground arith)), refl)
    ]

turn-Counted :
    (now : ℕ) (reply : Reply) (c : Call) (r : Router) (phase : Phase)
    → AttemptsAt c.attempt phase
    → After (Counted c r) (turn now reply c r phase)
unfolding turn cool
turn-Counted now reply c r cooling h =
    elim (Bool-cases (cooldown_remaining (r.origins c.origin) now == 0)) [
      | inl clear ↦ rw clear (h, refl)
      | inr cold ↦ rw cold (h, refl)
    ]
turn-Counted now reply c r (sleeping started deadline) h = elim (Bool-cases (ltb now deadline)) [
  | inl early ↦ rw early tt
  | inr due ↦ rw due (h, refl)
]
turn-Counted now reply c r (queued cooldown_ms queued_at) h =
    elim (Bool-cases ((r.origins c.origin).permits == 0)) [
      | inl used_up ↦ rw used_up tt
      | inr free ↦ rw free (h, refl)
    ]
turn-Counted now reply c r (admitted cooldown_ms queued_at) h =
    elim (Bool-cases (r.global_permits == 0)) [
      | inl used_up ↦ rw used_up tt
      | inr free ↦ rw free (h, refl)
    ]
turn-Counted now reply c r (permitted cooldown_ms queued_at) h =
    send_or_requeue-Counted now cooldown_ms queued_at c r h
turn-Counted now reply c r (sent cooldown_ms queue_ms started_at) (some_sent, few) =
    receive-Counted now cooldown_ms queue_ms started_at reply c r some_sent few
turn-Counted now reply c r (extending status deadline) (some_sent, few) =
    limited-Counted status deadline c r some_sent few
turn-Counted now reply c r (delivered status) (some_sent, few, _) = (few, refl)
turn-Counted now reply c r released h = tt
turn-Counted now reply c r failed h = tt
turn-Counted now reply c r cancelled h = tt
turn-Counted now reply c r abandoned h = tt

drop_at-Counted :
    (c : Call) (r : Router) (phase : Phase)
    → AttemptsAt c.attempt phase
    → After (Counted c r) (drop_at c r phase)
unfolding drop_at
drop_at-Counted c r cooling h = (h, refl)
drop_at-Counted c r (sleeping started deadline) h = (h, refl)
drop_at-Counted c r (queued cooldown_ms queued_at) h = (h, refl)
drop_at-Counted c r (admitted cooldown_ms queued_at) h = (h, refl)
drop_at-Counted c r (permitted cooldown_ms queued_at) h = (h, refl)
drop_at-Counted c r (sent cooldown_ms queue_ms started_at) h = (h, refl)
drop_at-Counted c r (extending status deadline) h = (h, refl)
drop_at-Counted c r (delivered status) h = tt
drop_at-Counted c r released h = tt
drop_at-Counted c r failed h = tt
drop_at-Counted c r cancelled h = tt
drop_at-Counted c r abandoned h = tt

pub advance-Counted :
    (now : ℕ) (reply : Reply) (c : Call) (r : Router)
    → IsCall c
    → After (Counted c r) (advance now reply c r)
advance-Counted now reply c r h = turn-Counted now reply c r c.phase h

pub cancel-Counted : (c : Call) (r : Router) → IsCall c → After (Counted c r) (cancel c r)
cancel-Counted c r h = drop_at-Counted c r c.phase h

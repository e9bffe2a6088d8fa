-- ===== src/Router/Send/Permits.antt =====
-- What one step of a call does to the permits and to the counter of the requests in flight.
use paperbridge.Prelude.{
  Bool-cases, Option, arith, if◌then◌else◌, inl, inr, ltb, none, refl, some, ℕ, ◌%◌, ◌+◌, ◌==◌, ◌^◌,
  ◌≡◌, false, subst, sym,
}
use paperbridge.Text.{Text, eq_text}
use paperbridge.Text.Prefix.{eq_text_sound}
use paperbridge.Router.State.{
  Call, OriginState, Phase, Router, abandoned, admitted, cancelled, cooldown_remaining, cooling,
  delivered, failed, permitted, queued, released, sent, sleeping, take_permit, extending,
}
use paperbridge.Router.Send.{
  Reply, advance, answer, cancel, cool, drop_at, is_rate_limited, limited, receive, response,
  send_or_requeue, transport_error, turn,
}

-- The permits that a call holds, and whether the counter of the requests in flight counts it.
abbrev pub global_held : Phase → ℕ
global_held cooling = 0
global_held (sleeping started deadline) = 0
global_held (queued cooldown_ms queued_at) = 0
global_held (admitted cooldown_ms queued_at) = 0
global_held (permitted cooldown_ms queued_at) = 1
global_held (sent cooldown_ms queue_ms started_at) = 1
global_held (extending status deadline) = 1
global_held (delivered status) = 1
global_held released = 0
global_held failed = 0
global_held cancelled = 0
global_held abandoned = 0

abbrev pub held_in : Phase → ℕ
held_in cooling = 0
held_in (sleeping started deadline) = 0
held_in (queued cooldown_ms queued_at) = 0
held_in (admitted cooldown_ms queued_at) = 1
held_in (permitted cooldown_ms queued_at) = 1
held_in (sent cooldown_ms queue_ms started_at) = 1
held_in (extending status deadline) = 1
held_in (delivered status) = 1
held_in released = 0
held_in failed = 0
held_in cancelled = 0
held_in abandoned = 0

abbrev pub origin_held : Text → Call → ℕ
origin_held origin c = if eq_text origin c.origin then held_in c.phase else 0

-- A call whose future was dropped in flight is counted for ever.
abbrev pub flying : Phase → ℕ
flying cooling = 0
flying (sleeping started deadline) = 0
flying (queued cooldown_ms queued_at) = 0
flying (admitted cooldown_ms queued_at) = 0
flying (permitted cooldown_ms queued_at) = 0
flying (sent cooldown_ms queue_ms started_at) = 1
flying (extending status deadline) = 1
flying (delivered status) = 1
flying released = 0
flying failed = 0
flying cancelled = 0
flying abandoned = 1

-- A step takes from the router what it gives to the call.
abbrev pub Balanced : Call → Router → Call → Router → Type 0
Balanced c r c' r' =
    (r'.global_permits + global_held c'.phase ≡ r.global_permits + global_held c.phase)
    × ((origin : Text)
        → (r'.origins origin).permits + origin_held origin c'
          ≡ (r.origins origin).permits + origin_held origin c)
    × ((r'.metrics.in_flight + flying c.phase) % 2 ^ 64
        ≡ (r.metrics.in_flight + flying c'.phase) % 2 ^ 64)

abbrev pub After : (Call → Router → Type 0) → Option (Call × Router) → Type 0
After P none = Unit
After P (some (c, r)) = P c r

send_or_requeue-Balanced :
    (now cooldown_ms queued_at : ℕ) (c : Call) (r : Router)
    → c.phase ≡ permitted cooldown_ms queued_at
    → After (Balanced c r) (some (send_or_requeue now cooldown_ms queued_at c r))
unfolding send_or_requeue
send_or_requeue-Balanced now cooldown_ms queued_at c r e =
    elim (Bool-cases (cooldown_remaining (r.origins c.origin) now == 0)) [
      | inl clear ↦ rw (clear, e) (refl, (λ origin. refl), ground arith)
      | inr cold ↦ rw (cold, e) (ground arith, (λ origin. ground arith), ground arith)
    ]

limited-Balanced :
    (status deadline : ℕ) (c : Call) (r : Router)
    → c.phase ≡ extending status deadline
    → After (Balanced c r) (some (limited status deadline c r))
unfolding limited
limited-Balanced status deadline c r e = elim (Bool-cases (c.attempt == 1)) [
  | inl first ↦ rw (first, e) (ground arith, (λ origin. ground arith), ground arith)
  | inr second ↦ rw (second, e) (refl, (λ origin. ground arith), refl)
]

receive-Balanced :
    (now cooldown_ms queue_ms started_at : ℕ) (reply : Reply) (c : Call) (r : Router)
    → c.phase ≡ sent cooldown_ms queue_ms started_at
    → After (Balanced c r) (some (receive now cooldown_ms queue_ms started_at reply c r))
unfolding receive answer
receive-Balanced now cooldown_ms queue_ms started_at transport_error c r e =
    rw e (ground arith, (λ origin. ground arith), ground arith)
receive-Balanced now cooldown_ms queue_ms started_at (response status headers) c r e =
    elim (Bool-cases (is_rate_limited status)) [
      | inl hit ↦ rw (hit, e) (refl, (λ origin. refl), refl)
      | inr fine ↦ rw (fine, e) (refl, (λ origin. ground arith), refl)
    ]

take_permit-Balanced :
    (origin from : Text) (origins : Text → OriginState)
    → (origins from).permits == 0 ≡ false
    → (if eq_text origin from then take_permit (origins origin) else origins origin).permits
        + (if eq_text origin from then 1 else 0)
      ≡ (origins origin).permits + (if eq_text origin from then 0 else 0)
take_permit-Balanced origin from origins free = elim (Bool-cases (eq_text origin from)) [
  | inr other ↦ rw other refl
  | inl same ↦
      let here =
        subst (λ o. (origins o).permits == 0 ≡ false) (sym (eq_text_sound origin from same)) free in
      rw same (ground arith)
]

turn-Balanced :
    (now : ℕ) (reply : Reply) (c : Call) (r : Router) (phase : Phase)
    → c.phase ≡ phase
    → After (Balanced c r) (turn now reply c r phase)
unfolding turn cool
turn-Balanced now reply c r cooling e =
    elim (Bool-cases (cooldown_remaining (r.origins c.origin) now == 0)) [
      | inl clear ↦ rw (clear, e) (refl, (λ origin. refl), refl)
      | inr cold ↦ rw (cold, e) (refl, (λ origin. refl), refl)
    ]
turn-Balanced now reply c r (sleeping started deadline) e = elim (Bool-cases (ltb now deadline)) [
  | inl early ↦ rw early tt
  | inr due ↦ rw (due, e) (refl, (λ origin. refl), refl)
]
turn-Balanced now reply c r (queued cooldown_ms queued_at) e =
    elim (Bool-cases ((r.origins c.origin).permits == 0)) [
      | inl used_up ↦ rw used_up tt
      | inr free ↦
          rw (free, e) (refl, (λ origin. take_permit-Balanced origin c.origin r.origins free), refl)
    ]
turn-Balanced now reply c r (admitted cooldown_ms queued_at) e =
    elim (Bool-cases (r.global_permits == 0)) [
      | inl used_up ↦ rw used_up tt
      | inr free ↦ rw (free, e) (ground arith, (λ origin. refl), refl)
    ]
turn-Balanced now reply c r (permitted cooldown_ms queued_at) e =
    send_or_requeue-Balanced now cooldown_ms queued_at c r e
turn-Balanced now reply c r (sent cooldown_ms queue_ms started_at) e =
    receive-Balanced now cooldown_ms queue_ms started_at reply c r e
turn-Balanced now reply c r (extending status deadline) e = limited-Balanced status deadline c r e
turn-Balanced now reply c r (delivered status) e =
    rw e (ground arith, (λ origin. ground arith), ground arith)
turn-Balanced now reply c r released e = tt
turn-Balanced now reply c r failed e = tt
turn-Balanced now reply c r cancelled e = tt
turn-Balanced now reply c r abandoned e = tt

drop_at-Balanced :
    (c : Call) (r : Router) (phase : Phase)
    → c.phase ≡ phase
    → After (Balanced c r) (drop_at c r phase)
unfolding drop_at
drop_at-Balanced c r cooling e = rw e (refl, (λ origin. refl), refl)
drop_at-Balanced c r (sleeping started deadline) e = rw e (refl, (λ origin. refl), refl)
drop_at-Balanced c r (queued cooldown_ms queued_at) e = rw e (refl, (λ origin. refl), refl)
drop_at-Balanced c r (admitted cooldown_ms queued_at) e =
    rw e (refl, (λ origin. ground arith), refl)
drop_at-Balanced c r (permitted cooldown_ms queued_at) e =
    rw e (ground arith, (λ origin. ground arith), refl)
drop_at-Balanced c r (sent cooldown_ms queue_ms started_at) e =
    rw e (ground arith, (λ origin. ground arith), refl)
drop_at-Balanced c r (extending status deadline) e =
    rw e (ground arith, (λ origin. ground arith), refl)
drop_at-Balanced c r (delivered status) e = tt
drop_at-Balanced c r released e = tt
drop_at-Balanced c r failed e = tt
drop_at-Balanced c r cancelled e = tt
drop_at-Balanced c r abandoned e = tt

pub advance-Balanced :
    (now : ℕ) (reply : Reply) (c : Call) (r : Router) → After (Balanced c r) (advance now reply c r)
advance-Balanced now reply c r = turn-Balanced now reply c r c.phase refl

pub cancel-Balanced : (c : Call) (r : Router) → After (Balanced c r) (cancel c r)
cancel-Balanced c r = drop_at-Balanced c r c.phase refl

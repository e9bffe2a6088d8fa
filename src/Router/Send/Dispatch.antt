-- ===== src/Router/Send/Dispatch.antt =====
-- When a call sends its request.
use paperbridge.Router.State.{
  Call, OriginState, Phase, Router, abandoned, admitted, cancelled, cooldown_remaining, cooling,
  delivered, failed, permitted, queued, released, sent, sleeping, extending,
}
use paperbridge.Router.Send.Permits.{After, flying, global_held, held_in}
use paperbridge.Router.Send.Attempts.{AttemptsAt, IsCall}
use paperbridge.Router.Send.{Reply, cool, send_or_requeue, turn}
use paperbridge.Prelude.{
  Bool-cases, Option, Option-cases, ap, arith, inl, inr, ltb, none, refl, some, subst, ℕ, ◌%◌, ◌+◌,
  ◌==◌, ◌^◌, ◌≡◌, ◌≤◌,
}

-- The deadline, 0 where there is none.
abbrev pub deadline_of : Option ℕ → ℕ
deadline_of none = 0
deadline_of (some deadline) = deadline

-- What holds of a call that sends its request, and of the router before and after.
pub record IsDispatch (now : ℕ) (c : Call) (r : Router) (c' : Call) (r' : Router) : Type 0 where
  pub holds_origin : held_in c.phase ≡ 1
  pub holds_global : global_held c.phase ≡ 1
  pub cooled : deadline_of (r.origins c.origin).cooldown ≤ now
  pub keeps_origin : held_in c'.phase ≡ 1
  pub keeps_global : global_held c'.phase ≡ 1
  pub same_permits : r'.global_permits ≡ r.global_permits
  pub same_origins : r'.origins ≡ r.origins
  pub one_more : c'.attempt ≡ c.attempt + 1
  pub counted : r'.metrics.in_flight ≡ (r.metrics.in_flight + 1) % 2 ^ 64

abbrev Dispatched : ℕ → Call → Router → Call → Router → Type 0
Dispatched now c r c' r' = flying c'.phase ≡ 1 → IsDispatch now c r c' r'

over : (o : OriginState) (now : ℕ) → cooldown_remaining o now ≡ 0 → deadline_of o.cooldown ≤ now
over o now h = elim (Option-cases o.cooldown) [
  | inl e ↦ rw e (omega arith)
  | inr (deadline, e) ↦ (let x = rw e at h in rw e (omega arith))
]

turn-Dispatched :
    (now : ℕ) (reply : Reply) (c : Call) (r : Router) (phase : Phase)
    → c.phase ≡ phase
    → AttemptsAt c.attempt phase
    → flying phase ≡ 0
    → After (Dispatched now c r) (turn now reply c r phase)
unfolding turn cool send_or_requeue
turn-Dispatched now reply c r cooling e few h =
    elim (Bool-cases (cooldown_remaining (r.origins c.origin) now == 0)) [
      | inl clear ↦ rw clear (λ sends. absurd (omega arith))
      | inr cold ↦ rw cold (λ sends. absurd (omega arith))
    ]
turn-Dispatched now reply c r (sleeping started deadline) e few h =
    elim (Bool-cases (ltb now deadline)) [
      | inl early ↦ rw early tt
      | inr due ↦ rw due (λ sends. absurd (omega arith))
    ]
turn-Dispatched now reply c r (queued cooldown_ms queued_at) e few h =
    elim (Bool-cases ((r.origins c.origin).permits == 0)) [
      | inl used_up ↦ rw used_up tt
      | inr free ↦ rw free (λ sends. absurd (omega arith))
    ]
turn-Dispatched now reply c r (admitted cooldown_ms queued_at) e few h =
    elim (Bool-cases (r.global_permits == 0)) [
      | inl used_up ↦ rw used_up tt
      | inr free ↦ rw free (λ sends. absurd (omega arith))
    ]
turn-Dispatched now reply c r (permitted cooldown_ms queued_at) e few h =
    elim (Bool-cases (cooldown_remaining (r.origins c.origin) now == 0)) [
      | inl clear ↦ rw clear (λ sends. record {
        holds_origin = ap held_in e;
        holds_global = ap global_held e;
        cooled = over (r.origins c.origin) now (ground arith);
        keeps_origin = refl;
        keeps_global = refl;
        same_permits = refl;
        same_origins = refl;
        one_more = omega arith;
        counted = refl;
      })
      | inr cold ↦ rw cold (λ sends. absurd (omega arith))
    ]
turn-Dispatched now reply c r (sent cooldown_ms queue_ms started_at) e few h = absurd (omega arith)
turn-Dispatched now reply c r (extending status deadline) e few h = absurd (omega arith)
turn-Dispatched now reply c r (delivered status) e few h = absurd (omega arith)
turn-Dispatched now reply c r released e few h = tt
turn-Dispatched now reply c r failed e few h = tt
turn-Dispatched now reply c r cancelled e few h = tt
turn-Dispatched now reply c r abandoned e few h = absurd (omega arith)

-- Whatever turn puts a call in flight: the call held a permit of its origin and a global one before
-- it, the cooldown of the origin was over, and the call still holds both, with one attempt more and
-- the counter of the requests in flight one higher, modulo 2^64. The call's attempts are
-- those of its phase (`IsCall`), as in each state that a router reaches.
pub turn-sends :
    (now : ℕ) (reply : Reply) (c c' : Call) (r r' : Router)
    → IsCall c
    → turn now reply c r c.phase ≡ some (c', r')
    → flying c.phase ≡ 0
    → flying c'.phase ≡ 1
    → IsDispatch now c r c' r'
turn-sends now reply c c' r r' few e idle sends =
    subst (After (Dispatched now c r)) e (turn-Dispatched now reply c r c.phase refl few idle) sends

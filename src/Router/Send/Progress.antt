-- ===== src/Router/Send/Progress.antt =====
-- No deadlock: the calls of a router do not wait for each other's permits for ever.
use paperbridge.Prelude.{
  All, Bool, List, [], arith, false, inl, inr, is_some, leb, refl, true, ℕ, ◌<◌, ◌∷◌, ◌≡◌, ◌⊎◌,
  Bool-cases, ◌==◌,
}
use paperbridge.Text.{Text}
use paperbridge.Router.State.{
  Call, Phase, Router, abandoned, admitted, cancelled, cooling, delivered, failed, permitted,
  queued, released, sent, sleeping, extending,
}
use paperbridge.Router.Send.{Reply, advance, turn}
use paperbridge.Router.Send.Permits.{global_held, held_in, origin_held}
use paperbridge.Router.Send.Steps.{total, Reach, Reach-IsConserved, System, start}

-- A call of the list can take its turn, at the time and with the reply given.
abbrev pub SomeCanAdvance : List Call → Router → ℕ → Reply → Type 0
SomeCanAdvance [] r now reply = ⊥
SomeCanAdvance (c ∷ cs) r now reply =
    (is_some (advance now reply c r) ≡ true) ⊎ SomeCanAdvance cs r now reply

abbrev pub is_over : Phase → Bool
is_over released = true
is_over failed = true
is_over cancelled = true
is_over abandoned = true
is_over cooling = false
is_over (sleeping started deadline) = false
is_over (queued cooldown_ms queued_at) = false
is_over (admitted cooldown_ms queued_at) = false
is_over (permitted cooldown_ms queued_at) = false
is_over (sent cooldown_ms queue_ms started_at) = false
is_over (extending status deadline) = false
is_over (delivered status) = false

abbrev pub SomeGoesOn : List Call → Type 0
SomeGoesOn [] = ⊥
SomeGoesOn (c ∷ cs) = (is_over c.phase ≡ false) ⊎ SomeGoesOn cs

-- The deadlines that calls sleep for are over.
abbrev pub is_due : ℕ → Phase → Bool
is_due now (sleeping started deadline) = leb deadline now
is_due now cooling = true
is_due now (queued cooldown_ms queued_at) = true
is_due now (admitted cooldown_ms queued_at) = true
is_due now (permitted cooldown_ms queued_at) = true
is_due now (sent cooldown_ms queue_ms started_at) = true
is_due now (extending status deadline) = true
is_due now (delivered status) = true
is_due now released = true
is_due now failed = true
is_due now cancelled = true
is_due now abandoned = true

module _ (now : ℕ) (reply : Reply) (r : Router) where
  -- A call that holds a global permit can take its turn.
  holder_advances :
      (cs : List Call) → 0 < total (λ c. global_held c.phase) cs → SomeCanAdvance cs r now reply
  unfolding turn
  holder_advances [] h = ground arith
  holder_advances (c ∷ cs) h = elim (turn_or_none c.phase) [
    | inl can ↦ inl can
    | inr waits ↦ inr (holder_advances cs (omega arith))
  ]
    where
      turn_or_none :
          (phase : Phase) → (is_some (turn now reply c r phase) ≡ true) ⊎ (global_held phase ≡ 0)
      turn_or_none cooling = inl refl
      turn_or_none (sleeping started deadline) = inr refl
      turn_or_none (queued cooldown_ms queued_at) = inr refl
      turn_or_none (admitted cooldown_ms queued_at) = inr refl
      turn_or_none (permitted cooldown_ms queued_at) = inl refl
      turn_or_none (sent cooldown_ms queue_ms started_at) = inl refl
      turn_or_none (extending status deadline) = inl refl
      turn_or_none (delivered status) = inl refl
      turn_or_none released = inr refl
      turn_or_none failed = inr refl
      turn_or_none cancelled = inr refl
      turn_or_none abandoned = inr refl

  -- With a global permit free, so can one that holds a permit of its origin.
  admitted_advances :
      (origin : Text) (cs : List Call)
      → 0 < r.global_permits
      → 0 < total (origin_held origin) cs
      → SomeCanAdvance cs r now reply
  unfolding turn
  admitted_advances origin [] free h = ground arith
  admitted_advances origin (c ∷ cs) free h = elim (turn_or_none c.phase) [
    | inl can ↦ inl can
    | inr waits ↦ inr (admitted_advances origin cs free (ground arith))
  ]
    where
      turn_or_none :
          (phase : Phase) → (is_some (turn now reply c r phase) ≡ true) ⊎ (held_in phase ≡ 0)
      turn_or_none cooling = inl refl
      turn_or_none (sleeping started deadline) = inr refl
      turn_or_none (queued cooldown_ms queued_at) = inr refl
      turn_or_none (admitted cooldown_ms queued_at) = inl (ground arith)
      turn_or_none (permitted cooldown_ms queued_at) = inl refl
      turn_or_none (sent cooldown_ms queue_ms started_at) = inl refl
      turn_or_none (extending status deadline) = inl refl
      turn_or_none (delivered status) = inl refl
      turn_or_none released = inr refl
      turn_or_none failed = inr refl
      turn_or_none cancelled = inr refl
      turn_or_none abandoned = inr refl

  -- With a global permit free, a call that is not over and whose deadline is past can take its turn,
  -- or waits for an origin all of whose permits are held.
  goes_or_waits :
      (c : Call) (phase : Phase)
      → 0 < r.global_permits
      → is_over phase ≡ false
      → is_due now phase ≡ true
      → (is_some (turn now reply c r phase) ≡ true) ⊎ ((r.origins c.origin).permits ≡ 0)
  unfolding turn
  goes_or_waits c cooling free h d = inl refl
  goes_or_waits c (sleeping started deadline) free h d = inl (ground arith)
  goes_or_waits c (queued cooldown_ms queued_at) free h d =
      elim (Bool-cases ((r.origins c.origin).permits == 0)) [
        | inl used_up ↦ inr (ground arith)
        | inr some_free ↦ inl (rw some_free refl)
      ]
  goes_or_waits c (admitted cooldown_ms queued_at) free h d = inl (ground arith)
  goes_or_waits c (permitted cooldown_ms queued_at) free h d = inl refl
  goes_or_waits c (sent cooldown_ms queue_ms started_at) free h d = inl refl
  goes_or_waits c (extending status deadline) free h d = inl refl
  goes_or_waits c (delivered status) free h d = inl refl
  goes_or_waits c released free h d = ground arith
  goes_or_waits c failed free h d = ground arith
  goes_or_waits c cancelled free h d = ground arith
  goes_or_waits c abandoned free h d = ground arith

  some_advances :
      (cs : List Call)
      → 0 < r.global_permits
      → SomeGoesOn cs
      → All (λ c. is_due now c.phase ≡ true) cs
      → SomeCanAdvance cs r now reply ⊎ ((origin : Text) × ((r.origins origin).permits ≡ 0))
  some_advances [] free going dues = elim going [ ]
  some_advances (c ∷ cs) free (inr rest) (due, dues) = elim (some_advances cs free rest dues) [
    | inl can ↦ inl (inr can)
    | inr waits ↦ inr waits
  ]
  some_advances (c ∷ cs) free (inl going) (due, dues) =
      elim (goes_or_waits c c.phase free going due) [
        | inl can ↦ inl (inl can)
        | inr waits ↦ inr (c.origin, waits)
      ]

module _ (global_limit per_origin_limit : ℕ) where
  -- No deadlock: in each state that a router reaches, whatever its limits, at a time when the
  -- deadlines that calls sleep for are past: unless every call is over, one of them can take its turn.
  pub Reach-progress :
      {s : System} (now : ℕ) (reply : Reply)
      → Reach (start global_limit per_origin_limit) s
      → SomeGoesOn s.calls
      → All (λ c. is_due now c.phase ≡ true) s.calls
      → SomeCanAdvance s.calls s.router now reply
  Reach-progress {s} now reply path going due =
      let kept = Reach-IsConserved global_limit per_origin_limit path in
      elim (Bool-cases (s.router.global_permits == 0)) [
        | inl used_up ↦
            holder_advances now reply s.router s.calls (ground (arith, kept.global_kept))
        | inr free ↦ elim (some_advances now reply s.router s.calls (ground arith) going due) [
          | inl can ↦ can
          | inr (origin, waits) ↦
              admitted_advances now reply s.router origin s.calls (ground arith)
                (omega (arith, kept.origins_kept origin))
        ]
      ]

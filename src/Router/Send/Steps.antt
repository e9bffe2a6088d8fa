-- ===== src/Router/Send/Steps.antt =====
-- Any number of calls of `send` on one router, their steps in any order: what holds in each state
-- that can be reached.
use paperbridge.Prelude.{
  All, All-append, List, Option, [], arith, max, none, refl, some, subst, ℕ, ◌%◌, ◌++◌, ◌+◌, ◌^◌,
  ◌∷◌, ◌≡◌, All-of_append,
}
use paperbridge.Text.{Text}
use paperbridge.Router.State.{Call, Request, Router, new}
use paperbridge.Router.Send.{Reply, advance, cancel, enter}
use paperbridge.Router.Send.Permits.{
  After, Balanced, advance-Balanced, cancel-Balanced, flying, global_held, origin_held,
}
use paperbridge.Router.Send.Attempts.{Counted, IsCall, advance-Counted, cancel-Counted}

pub record System : Type 0 where
  pub calls : List Call
  pub router : Router

-- A new call arrives, or one call takes its turn, or the future of one call is dropped.
pub data Step : System → System → Type 0 where
  arrives :
      (request : Request) (calls : List Call) (r : Router)
      → Step
          (record { calls = calls; router = r })
          (record { calls = (enter request r).0 ∷ calls; router = (enter request r).1 })
  advances :
      (before : List Call) (c : Call) (after : List Call) (r : Router) (now : ℕ) (reply : Reply)
      {c' : Call} {r' : Router}
      → advance now reply c r ≡ some (c', r')
      → Step
          (record { calls = before ++ c ∷ after; router = r })
          (record { calls = before ++ c' ∷ after; router = r' })
  is_cancelled :
      (before : List Call) (c : Call) (after : List Call) (r : Router) {c' : Call} {r' : Router}
      → cancel c r ≡ some (c', r')
      → Step
          (record { calls = before ++ c ∷ after; router = r })
          (record { calls = before ++ c' ∷ after; router = r' })

pub data Reach (s : System) : System → Type 0 where
  here : Reach s s
  next : {t u : System} → Reach s t → Step t u → Reach s u

abbrev pub start : ℕ → ℕ → System
start global_limit per_origin_limit = record {
  calls = [];
  router = new global_limit per_origin_limit;
}

abbrev pub total : (Call → ℕ) → List Call → ℕ
total f [] = 0
total f (c ∷ cs) = f c + total f cs

pub total-append : (f : Call → ℕ) (xs ys : List Call) → total f (xs ++ ys) ≡ total f xs + total f ys
total-append f [] ys = omega arith
total-append f (x ∷ xs) ys = omega (arith, total-append f xs ys)

-- The permits that are free and those that calls hold make up the limits; the counter of the
-- requests in flight is the number of the calls in flight and of those abandoned there; the counter
-- of the attempts is the sum of the calls' own, and each call's own is bounded.
pub record IsConserved (global_limit per_origin_limit : ℕ) (s : System) : Type 0 where
  pub global_kept :
      s.router.global_permits + total (λ c. global_held c.phase) s.calls ≡ max global_limit 1
  pub origins_kept :
      (origin : Text)
      → (s.router.origins origin).permits + total (origin_held origin) s.calls
        ≡ max per_origin_limit 1
  pub in_flight_counted :
      s.router.metrics.in_flight % 2 ^ 64 ≡ total (λ c. flying c.phase) s.calls % 2 ^ 64
  pub attempts_counted :
      s.router.metrics.attempts % 2 ^ 64 ≡ total (λ c. c.attempt) s.calls % 2 ^ 64
  pub attempts_bounded : All IsCall s.calls

module _ (global_limit per_origin_limit : ℕ) where
  abbrev pub Conserved : System → Type 0
  Conserved = IsConserved global_limit per_origin_limit

  start-IsConserved : Conserved (start global_limit per_origin_limit)
  unfolding new
  start-IsConserved = record {
    global_kept = omega arith;
    origins_kept = λ origin. omega arith;
    in_flight_counted = omega arith;
    attempts_counted = omega arith;
    attempts_bounded = tt;
  }

  enter-IsConserved :
      (request : Request) (calls : List Call) (r : Router)
      → Conserved (record { calls = calls; router = r })
      → Conserved (record { calls = (enter request r).0 ∷ calls; router = (enter request r).1 })
  unfolding enter
  enter-IsConserved request calls r h = go request.origin refl
    where
      go :
          (origin : Option Text)
          → request.origin ≡ origin
          → Conserved (record { calls = (enter request r).0 ∷ calls; router = (enter request r).1 })
      go none e = rw e (record {
        global_kept = omega (arith, h.global_kept);
        origins_kept = λ origin. ground (arith, h.origins_kept origin);
        in_flight_counted = omega (arith, h.in_flight_counted);
        attempts_counted = omega (arith, h.attempts_counted);
        attempts_bounded = (omega arith, h.attempts_bounded);
      })
      go (some from) e = rw e (record {
        global_kept = omega (arith, h.global_kept);
        origins_kept = λ origin. ground (arith, h.origins_kept origin);
        in_flight_counted = omega (arith, h.in_flight_counted);
        attempts_counted = omega (arith, h.attempts_counted);
        attempts_bounded = (omega arith, h.attempts_bounded);
      })

  -- A balanced step of one call keeps the sums over all.
  one-IsConserved :
      (before : List Call) (c c' : Call) (after : List Call) (r r' : Router)
      → Balanced c r c' r'
      → Counted c r c' r'
      → Conserved (record { calls = before ++ c ∷ after; router = r })
      → Conserved (record { calls = before ++ c' ∷ after; router = r' })
  one-IsConserved before c c' after r r' (global, origins, flight) (bounded, attempts) h =
      let split = λ (f : Call → ℕ) (x : Call). total-append f before (x ∷ after) in
      let hold : Call → ℕ = λ x. global_held x.phase in
      let fly : Call → ℕ = λ x. flying x.phase in
      let tries : Call → ℕ = λ x. x.attempt in
      let (first, (_, last)) = All-of_append IsCall before (c ∷ after) h.attempts_bounded in
      record {
        global_kept = omega (arith, h.global_kept, split hold c, split hold c');
        origins_kept = λ origin. omega (
          arith,
          h.origins_kept origin,
          origins origin,
          split (origin_held origin) c,
          split (origin_held origin) c',
        );
        in_flight_counted = omega (arith, h.in_flight_counted, split fly c, split fly c');
        attempts_counted = omega (arith, h.attempts_counted, split tries c, split tries c');
        attempts_bounded = All-append IsCall before (c' ∷ after) first (bounded, last);
      }

  Step-IsConserved : {s t : System} → Step s t → Conserved s → Conserved t
  Step-IsConserved (arrives request calls r) h = enter-IsConserved request calls r h
  Step-IsConserved (advances before c after r now reply {c'} {r'} e) h =
      let (_, (own, _)) = All-of_append IsCall before (c ∷ after) h.attempts_bounded in
      one-IsConserved before c c' after r r'
        (subst (After (Balanced c r)) e (advance-Balanced now reply c r))
        (subst (After (Counted c r)) e (advance-Counted now reply c r own)) h
  Step-IsConserved (is_cancelled before c after r {c'} {r'} e) h =
      let (_, (own, _)) = All-of_append IsCall before (c ∷ after) h.attempts_bounded in
      one-IsConserved before c c' after r r' (subst (After (Balanced c r)) e (cancel-Balanced c r))
        (subst (After (Counted c r)) e (cancel-Counted c r own)) h

  -- In each state that a router reaches, whatever calls arrive, take their turns or are dropped, and
  -- in whatever order: the free permits and those that calls hold make up the limits, overall and
  -- for each origin; the counter of the requests in flight is the number of calls in flight or
  -- abandoned there, modulo 2^64; the counter of the attempts is the sum of the calls' attempts,
  -- modulo 2^64; and a call makes at most two attempts, a rate-limited response being delivered only
  -- after the second.
  pub Reach-IsConserved : {s : System} → Reach (start global_limit per_origin_limit) s → Conserved s
  Reach-IsConserved here = start-IsConserved
  Reach-IsConserved (next path step) = Step-IsConserved step (Reach-IsConserved path)

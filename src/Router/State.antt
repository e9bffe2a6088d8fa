-- ===== src/Router/State.antt =====
-- The state of `RequestRouter` and of the calls of `send` (src/request_router.rs), and the operations
-- on its shared parts: counters, permits, cooldowns and the records of events.
use paperbridge.Prelude.{
  List, Option, [], if◌then◌else◌, ltb, max, min, none, some, ℕ, ◌%◌, ◌+◌, ◌-◌, ◌^◌,
}
use paperbridge.Text.{Text, eq_text}
use paperbridge.Maps.{nat_eq, text_eq, upsert}
use paperbridge.Router.Latency.{ComponentLatency, Event, no_latency, record_latency}

-- The request, as far as `request_origin` and `try_clone` tell: `none` is the error that the origin
-- cannot be had.
pub record Request : Type 0 where
  pub component : Text
  pub origin : Option Text

-- Where a call stands, with the local variables that are live there.
pub data Phase : Type 0 where
  cooling : Phase  -- at the top of the loop
  sleeping : ℕ → ℕ → Phase  -- cooldown_started, the deadline
  queued : ℕ → ℕ → Phase  -- cooldown_ms, queued_at
  admitted : ℕ → ℕ → Phase  -- the same, with the origin's permit
  permitted : ℕ → ℕ → Phase  -- the same, with both permits
  sent : ℕ → ℕ → ℕ → Phase  -- cooldown_ms, queue_ms, started_at
  extending : ℕ → ℕ → Phase  -- the status, the deadline that the cooldown is extended to
  delivered : ℕ → Phase  -- the caller holds the `RoutedResponse` with this status
  released : Phase  -- the response is dropped
  failed : Phase  -- `send` returned an error
  cancelled : Phase  -- the future was dropped before the request was sent
  abandoned : Phase  -- the future was dropped while the request was in flight or `extending`

pub record Call : Type 0 where
  pub request_id : ℕ
  pub component : Text
  pub origin : Text
  pub attempt : ℕ
  pub phase : Phase

pub record OriginState : Type 0 where
  pub permits : ℕ
  pub cooldown : Option ℕ

pub record Metrics : Type 0 where
  pub requests : ℕ
  pub attempts : ℕ
  pub retries : ℕ
  pub rate_limited : ℕ
  pub transport_failures : ℕ
  pub in_flight : ℕ

pub record Router : Type 0 where
  pub global_permits : ℕ
  pub origins : Text → OriginState
  pub metrics : Metrics
  pub last_event : Option Event
  pub components : List (Text × ComponentLatency)
  pub next_request_id : ℕ

-- `new`. The map of the origins makes an entry with all permits on the first use of an origin: it
-- is a function that has one for each.
unfoldable pub new : ℕ → ℕ → Router
new global_limit per_origin_limit = record {
  global_permits = max global_limit 1;
  origins = λ origin. record { permits = max per_origin_limit 1; cooldown = none };
  metrics = record {
    requests = 0;
    attempts = 0;
    retries = 0;
    rate_limited = 0;
    transport_failures = 0;
    in_flight = 0;
  };
  last_event = none;
  components = [];
  next_request_id = 1;
}

-- `fetch_add(1)` and `fetch_sub(1)` on an `AtomicU64`.
abbrev pub fetch_add : ℕ → ℕ
fetch_add n = (n + 1) % 2 ^ 64

abbrev pub fetch_sub : ℕ → ℕ
fetch_sub n = (n + (2 ^ 64 - 1)) % 2 ^ 64

-- The state of one origin behind its `Arc`.
abbrev pub at_origin : Text → (OriginState → OriginState) → Router → Router
at_origin origin f r = record r {
  origins = λ o. if eq_text o origin then f (r.origins o) else r.origins o;
}

abbrev pub cooldown_remaining : OriginState → ℕ → ℕ
cooldown_remaining o now = remaining o.cooldown
  where
    remaining : Option ℕ → ℕ
    remaining none = 0
    remaining (some deadline) = deadline - now

abbrev pub later : Option ℕ → ℕ → Option ℕ
later none candidate = some candidate
later (some current) candidate = if ltb current candidate then some candidate else some current

-- To the deadline given, unless the one there is later.
abbrev pub extend_cooldown : ℕ → OriginState → OriginState
extend_cooldown deadline o = record o { cooldown = later o.cooldown deadline }

abbrev pub take_permit : OriginState → OriginState
take_permit o = record o { permits = o.permits - 1 }

abbrev pub return_permit : OriginState → OriginState
return_permit o = record o { permits = o.permits + 1 }

-- Dropping the global permit and the origin's.
abbrev pub release_both : Text → Router → Router
release_both origin r =
    at_origin origin return_permit (record r { global_permits = r.global_permits + 1 })

abbrev pub elapsed_ms : ℕ → ℕ → ℕ
elapsed_ms since now = min (now - since) (2 ^ 64 - 1)

abbrev pub record_event : Event → Router → Router
record_event event r = record r {
  components =
      upsert event.component (no_latency event.component) (record_latency event) r.components;
  last_event = some event;
}

abbrev pub with_metrics : (Metrics → Metrics) → Router → Router
with_metrics f r = record r { metrics = f r.metrics }

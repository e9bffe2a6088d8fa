-- ===== src/Router/Latency.antt =====
-- `RequestRouterEvent`, `ComponentLatency` and `record` of src/request_router.rs.
use paperbridge.Prelude.{
  List, [], arith, if◌then◌else◌, length, max, min, ℕ, ◌+◌, ◌-◌, ◌<◌, ◌==◌, ◌^◌, ◌∷◌, ◌≡◌,
}
use paperbridge.Text.{Text}

pub record Event : Type 0 where
  pub request_id : ℕ
  pub component : Text
  pub origin : Text
  pub attempt : ℕ
  pub status : ℕ
  pub cooldown_ms : ℕ
  pub queue_ms : ℕ
  pub ttfb_ms : ℕ

pub record ComponentLatency : Type 0 where
  pub component : Text
  pub attempts : ℕ
  pub transport_failures : ℕ
  pub total_queue_ms : ℕ
  pub max_queue_ms : ℕ
  pub total_ttfb_ms : ℕ
  pub max_ttfb_ms : ℕ

abbrev pub saturating_add : ℕ → ℕ → ℕ
saturating_add a b = min (a + b) (2 ^ 64 - 1)

-- The row of a component that has made no attempt.
unfoldable pub no_latency : Text → ComponentLatency
no_latency component = record {
  component = component;
  attempts = 0;
  transport_failures = 0;
  total_queue_ms = 0;
  max_queue_ms = 0;
  total_ttfb_ms = 0;
  max_ttfb_ms = 0;
}

unfoldable pub record_latency : Event → ComponentLatency → ComponentLatency
record_latency event row = record {
  component = row.component;
  attempts = row.attempts + 1;
  transport_failures = row.transport_failures + (if event.status == 0 then 1 else 0);
  total_queue_ms = saturating_add row.total_queue_ms event.queue_ms;
  max_queue_ms = max row.max_queue_ms event.queue_ms;
  total_ttfb_ms = saturating_add row.total_ttfb_ms event.ttfb_ms;
  max_ttfb_ms = max row.max_ttfb_ms event.ttfb_ms;
}

-- The rows after a list of events.
pub recorded : List Event → ComponentLatency → ComponentLatency
unfolding record_latency
recorded [] row = row
recorded (event ∷ events) row = recorded events (record_latency event row)

abbrev pub sum_by : (Event → ℕ) → List Event → ℕ
sum_by f [] = 0
sum_by f (event ∷ events) = f event + sum_by f events

abbrev pub max_by : (Event → ℕ) → List Event → ℕ
max_by f [] = 0
max_by f (event ∷ events) = max (f event) (max_by f events)

abbrev pub failures : List Event → ℕ
failures [] = 0
failures (event ∷ events) = (if event.status == 0 then 1 else 0) + failures events

-- A row whose totals fit in 64 bits.
pub record IsRow (row : ComponentLatency) : Type 0 where
  pub queue_fits : row.total_queue_ms < 2 ^ 64
  pub ttfb_fits : row.total_ttfb_ms < 2 ^ 64

pub record Summary (events : List Event) (row after : ComponentLatency) : Type 0 where
  pub attempts_counted : after.attempts ≡ row.attempts + length events
  pub failures_counted : after.transport_failures ≡ row.transport_failures + failures events
  pub queue_total :
      after.total_queue_ms ≡ saturating_add row.total_queue_ms (sum_by (λ e. e.queue_ms) events)
  pub queue_max : after.max_queue_ms ≡ max row.max_queue_ms (max_by (λ e. e.queue_ms) events)
  pub ttfb_total :
      after.total_ttfb_ms ≡ saturating_add row.total_ttfb_ms (sum_by (λ e. e.ttfb_ms) events)
  pub ttfb_max : after.max_ttfb_ms ≡ max row.max_ttfb_ms (max_by (λ e. e.ttfb_ms) events)

recorded-Summary :
    (events : List Event) (row : ComponentLatency)
    → IsRow row
    → Summary events row (recorded events row)
unfolding recorded record_latency
recorded-Summary [] row h =
    let queue = h.queue_fits in
    let ttfb = h.ttfb_fits in
    record {
      attempts_counted = omega arith;
      failures_counted = omega arith;
      queue_total = omega arith;
      queue_max = omega arith;
      ttfb_total = omega arith;
      ttfb_max = omega arith;
    }
recorded-Summary (event ∷ events) row h =
    let later =
      recorded-Summary events (record_latency event row)
        (record { queue_fits = omega arith; ttfb_fits = omega arith }) in
    record {
      attempts_counted = omega (arith, later.attempts_counted);
      failures_counted = ground (arith, later.failures_counted);
      queue_total = omega (arith, later.queue_total);
      queue_max = omega (arith, later.queue_max);
      ttfb_total = omega (arith, later.ttfb_total);
      ttfb_max = omega (arith, later.ttfb_max);
    }

-- After any sequence of events, a component's row that started empty holds the number of events and
-- of those without a response, the largest queueing time and time to the first byte, and the sums
-- of both, up to the largest 64-bit number.
pub recorded-totals :
    (component : Text) (events : List Event)
    → Summary events (no_latency component) (recorded events (no_latency component))
unfolding no_latency
recorded-totals component events =
    recorded-Summary events (no_latency component)
      (record { queue_fits = omega arith; ttfb_fits = omega arith })

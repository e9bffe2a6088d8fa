-- ===== src/Router/Send.antt =====
-- `RequestRouter::send` of src/request_router.rs as the steps of one call between two awaits. The
-- steps of different calls interleave (Send/Steps).
pub mod Steps
pub mod Progress
pub mod Attempts
pub mod Dispatch
pub mod Permits
use paperbridge.Prelude.{
  Bool, Option, [], if◌then◌else◌, ltb, min, none, some, ℕ, ◌+◌, ◌-◌, ◌==◌, ◌||◌,
}
use paperbridge.Text.{Text}
use paperbridge.Router.State.{
  Call, Metrics, Phase, Request, Router, abandoned, admitted, at_origin, cancelled,
  cooldown_remaining, cooling, delivered, elapsed_ms, extend_cooldown, failed, fetch_add, fetch_sub,
  permitted, queued, record_event, release_both, released, return_permit, sent, sleeping,
  take_permit, with_metrics, extending,
}
use paperbridge.Router.Delay.{Headers, retry_delay}
use paperbridge.Router.Latency.{Event}

-- What `outbound.send().await` gives: no response, or one with a status and headers.
pub data Reply : Type 0 where
  transport_error : Reply
  response : ℕ → Headers → Reply

abbrev pub status_of : Reply → ℕ
status_of transport_error = 0
status_of (response status headers) = status

-- 429 or 503.
abbrev pub is_rate_limited : ℕ → Bool
is_rate_limited status = (status == 429) || (status == 503)

abbrev pub goes_to : Phase → Call → Call
goes_to phase c = record c { phase = phase }

-- Up to the loop.
unfoldable pub enter : Request → Router → Call × Router
enter request r = (
  call request.origin,
  record (with_metrics count r) { next_request_id = fetch_add r.next_request_id },
)
  where
    count : Metrics → Metrics
    count m = record m { requests = fetch_add m.requests }

    call : Option Text → Call
    call none = record {
      request_id = r.next_request_id;
      component = request.component;
      origin = [];
      attempt = 0;
      phase = failed;
    }
    call (some origin) = record {
      request_id = r.next_request_id;
      component = request.component;
      origin = origin;
      attempt = 0;
      phase = cooling;
    }

-- `wait_for_cooldown`: the deadline is read once, and slept for.
unfoldable pub cool : ℕ → Call → Router → Call
cool now c r =
    if cooldown_remaining (r.origins c.origin) now == 0
    then goes_to (queued 0 now) c
    else goes_to (sleeping now (now + cooldown_remaining (r.origins c.origin) now)) c

-- Behind `acquire_owned().await` of both: another call's rate limit while this one queued sends it
-- back to the top of the loop; otherwise the request goes out. It is cloned again, which succeeds
-- for each request that `request_origin` could clone; the semaphores are never closed.
unfoldable pub send_or_requeue : ℕ → ℕ → ℕ → Call → Router → Call × Router
send_or_requeue now cooldown_ms queued_at c r =
    if cooldown_remaining (r.origins c.origin) now == 0
    then (
      record c {
        attempt = min (c.attempt + 1) 255;
        phase = sent cooldown_ms (elapsed_ms queued_at now) now;
      },
      with_metrics count r,
    )
    else (goes_to cooling c, release_both c.origin r)
  where
    count : Metrics → Metrics
    count m = record m { attempts = fetch_add m.attempts; in_flight = fetch_add m.in_flight }

-- The counters of a retry, and of a failure of the transport.
abbrev pub count_retry : Metrics → Metrics
count_retry m = record m { retries = fetch_add m.retries; in_flight = fetch_sub m.in_flight }

abbrev pub count_failure : Metrics → Metrics
count_failure m = record m {
  transport_failures = fetch_add m.transport_failures;
  in_flight = fetch_sub m.in_flight;
}

abbrev pub count_rate_limited : Metrics → Metrics
count_rate_limited m = record m { rate_limited = fetch_add m.rate_limited }

-- Behind the await in `extend_cooldown` of the lock of the origin's cooldown, after a rate-limited
-- response: once more on the first attempt, delivered on the second.
unfoldable pub limited : ℕ → ℕ → Call → Router → Call × Router
limited status deadline c r =
    let slowed = at_origin c.origin (extend_cooldown deadline) r in
    if c.attempt == 1
    then (goes_to cooling c, release_both c.origin (with_metrics count_retry slowed))
    else (goes_to (delivered status) c, slowed)

unfoldable pub answer : ℕ → Reply → Call → Router → Call × Router
answer now transport_error c r =
    (goes_to failed c, release_both c.origin (with_metrics count_failure r))
answer now (response status headers) c r =
    if is_rate_limited status
    then (
      goes_to (extending status (now + retry_delay headers)) c,
      with_metrics count_rate_limited r,
    )
    else (goes_to (delivered status) c, r)

-- The event is recorded whatever the reply is.
unfoldable pub receive : ℕ → ℕ → ℕ → ℕ → Reply → Call → Router → Call × Router
unfolding answer
receive now cooldown_ms queue_ms started_at reply c r =
    let event : Event = record {
      request_id = c.request_id;
      component = c.component;
      origin = c.origin;
      attempt = c.attempt;
      status = status_of reply;
      cooldown_ms = cooldown_ms;
      queue_ms = queue_ms;
      ttfb_ms = elapsed_ms started_at now;
    } in
    answer now reply c (record_event event r)

abbrev pub leave_flight : Metrics → Metrics
leave_flight m = record m { in_flight = fetch_sub m.in_flight }

-- What a call does next, on its turn: `none` where it waits for the clock or a permit, and where it
-- is over. The case of `delivered` is the drop of the `RoutedResponse` by the caller.
unfoldable pub turn : ℕ → Reply → Call → Router → Phase → Option (Call × Router)
unfolding cool send_or_requeue receive limited
turn now reply c r cooling = some (cool now c r, r)
turn now reply c r (sleeping started deadline) =
    if ltb now deadline then none else some (goes_to (queued (elapsed_ms started now) now) c, r)
turn now reply c r (queued cooldown_ms queued_at) =
    if (r.origins c.origin).permits == 0
    then none
    else some (goes_to (admitted cooldown_ms queued_at) c, at_origin c.origin take_permit r)
turn now reply c r (admitted cooldown_ms queued_at) =
    if r.global_permits == 0
    then none
    else some (
      goes_to (permitted cooldown_ms queued_at) c,
      record r { global_permits = r.global_permits - 1 },
    )
turn now reply c r (permitted cooldown_ms queued_at) =
    some (send_or_requeue now cooldown_ms queued_at c r)
turn now reply c r (sent cooldown_ms queue_ms started_at) =
    some (receive now cooldown_ms queue_ms started_at reply c r)
turn now reply c r (extending status deadline) = some (limited status deadline c r)
turn now reply c r (delivered status) =
    some (goes_to released c, release_both c.origin (with_metrics leave_flight r))
turn now reply c r released = none
turn now reply c r failed = none
turn now reply c r cancelled = none
turn now reply c r abandoned = none

abbrev pub advance : ℕ → Reply → Call → Router → Option (Call × Router)
advance now reply c r = turn now reply c r c.phase

-- The future is dropped at an await: its permits are returned. The counter of the requests in
-- flight is lowered by the guard alone, which does not exist before the response is returned.
unfoldable pub drop_at : Call → Router → Phase → Option (Call × Router)
drop_at c r cooling = some (goes_to cancelled c, r)
drop_at c r (sleeping started deadline) = some (goes_to cancelled c, r)
drop_at c r (queued cooldown_ms queued_at) = some (goes_to cancelled c, r)
drop_at c r (admitted cooldown_ms queued_at) =
    some (goes_to cancelled c, at_origin c.origin return_permit r)
drop_at c r (permitted cooldown_ms queued_at) = some (goes_to cancelled c, release_both c.origin r)
drop_at c r (sent cooldown_ms queue_ms started_at) =
    some (goes_to abandoned c, release_both c.origin r)
drop_at c r (extending status deadline) = some (goes_to abandoned c, release_both c.origin r)
drop_at c r (delivered status) = none
drop_at c r released = none
drop_at c r failed = none
drop_at c r cancelled = none
drop_at c r abandoned = none

abbrev pub cancel : Call → Router → Option (Call × Router)
cancel c r = drop_at c r c.phase

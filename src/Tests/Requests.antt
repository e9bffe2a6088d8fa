-- ===== src/Tests/Requests.antt =====
-- One call on a router with one permit for each origin and two overall.
use paperbridge.Router.Send.Dispatch.{IsDispatch, turn-sends}
use paperbridge.Prelude.{
  List, [], arith, concat, inl, length, min, none, refl, some, ℕ, ◌*◌, ◌<◌, ◌∷◌, ◌≡◌, ◌≤◌,
}
use paperbridge.Text.{Text, codes}
use paperbridge.Router.Delay.{
  AsksFor, Headers, parse_seconds_header, retry_delay, retry_delay-bounds, retry_delay_cap_ms,
  retry_delay_default_ms,
}
use paperbridge.Router.Latency.{Event}
use paperbridge.Router.Body.{bytes, bytes_limited, bytes_limited-exact, chunks_of, too_long}
use paperbridge.Router.State.{Call, Request, Router, new, queued, permitted}
use paperbridge.Router.Send.{cool, enter, goes_to, send_or_requeue, transport_error, turn}
use paperbridge.Router.Send.Steps.{
  IsConserved, Reach, Reach-IsConserved, System, advances, arrives, here, next, start,
}
use paperbridge.Router.Send.Progress.{Reach-progress, SomeCanAdvance}

abbrev request : Request
request = record {
  component = codes "crossref";
  origin = some (codes "https://api.crossref.org:443");
}

abbrev entered : Call × Router
entered = enter request (new 2 1)

abbrev waiting : Call
waiting = goes_to (queued 0 7) entered.0

-- The call arrives, and goes to the queue at the time 7.
abbrev system : System
system = record { calls = waiting ∷ []; router = entered.1 }

path : Reach (start 2 1) system
unfolding enter turn cool new
path =
    next (next here (arrives request [] (new 2 1)))
      (advances [] entered.0 [] entered.1 7 transport_error {c' = waiting} {r' = entered.1} refl)

Reach-IsConserved_example : IsConserved 2 1 system
Reach-IsConserved_example = Reach-IsConserved 2 1 path

Reach-progress_example : SomeCanAdvance (waiting ∷ []) entered.1 9 transport_error
Reach-progress_example =
    Reach-progress 2 1 {s = system} 9 transport_error path (inl refl) (refl, tt)

-- The call with both permits at the time 8, and behind its turn at the time 9.
abbrev ready : Call
ready = goes_to (permitted 0 7) waiting

abbrev dispatched : Call × Router
dispatched = send_or_requeue 9 0 7 ready entered.1

turn-sends_example : IsDispatch 9 ready entered.1 dispatched.0 dispatched.1
unfolding enter new turn send_or_requeue
turn-sends_example =
    turn-sends 9 transport_error ready dispatched.0 entered.1 dispatched.1 (omega arith) refl refl
      refl

abbrev event : Event
event = record {
  request_id = 1;
  component = codes "crossref";
  origin = codes "https://api.crossref.org:443";
  attempt = 1;
  status = 0;
  cooldown_ms = 0;
  queue_ms = 3;
  ttfb_ms = 40;
}

abbrev two_chunks : List Text
two_chunks = codes "abc" ∷ codes "de" ∷ []

bytes_limited-exact_example :
    (length (concat two_chunks) ≤ 4
      → bytes_limited 4 (chunks_of two_chunks) ≡ bytes (concat two_chunks))
    × (4 < length (concat two_chunks) → bytes_limited 4 (chunks_of two_chunks) ≡ too_long 4)
bytes_limited-exact_example = bytes_limited-exact 4 two_chunks (omega arith)

abbrev headers : Headers
headers = record { retry_after = some (codes " 1 "); backoff = none }

retry_delay-bounds_example :
    (retry_delay headers ≤ retry_delay_cap_ms)
    × ((seconds : ℕ)
        → AsksFor headers seconds
        → min (seconds * 1000) retry_delay_cap_ms ≤ retry_delay headers)
    × (parse_seconds_header headers.retry_after ≡ none
        → parse_seconds_header headers.backoff ≡ none
        → retry_delay headers ≡ retry_delay_default_ms)
retry_delay-bounds_example = retry_delay-bounds headers

-- ===== src/Router/Delay.antt =====
-- `retry_delay` and `parse_seconds_header` of src/request_router.rs.
use paperbridge.Prelude.{
  Option, [], arith, if◌then◌else◌, ltb, max, min, none, refl, some, ℕ, ◌&&◌, ◌*◌, ◌+◌, ◌-◌, ◌==◌,
  ◌>>=◌, ◌^◌, ◌∷◌, ◌≡◌, ◌≤◌, ◌⊎◌,
}
use paperbridge.Text.{Text, is_ascii_digit, trim}

-- `str::parse::<u64>`: an optional sign `+`, then digits, and an error above 2^64 - 1.
abbrev pub digits_u64 : ℕ → Text → Option ℕ
digits_u64 acc [] = some acc
digits_u64 acc (c ∷ cs) =
    let rest = digits_u64 (acc * 10 + (c - 48)) cs in
    if is_ascii_digit c && ltb (acc * 10 + (c - 48)) (2 ^ 64) then rest else none

unfoldable pub parse_u64 : Text → Option ℕ
parse_u64 [] = none
parse_u64 (c ∷ []) = digits_u64 0 (c ∷ [])
parse_u64 (c ∷ d ∷ ds) = if c == 43 then digits_u64 0 (d ∷ ds) else digits_u64 0 (c ∷ d ∷ ds)

abbrev pub retry_delay_default_ms : ℕ
retry_delay_default_ms = 500

abbrev pub retry_delay_cap_ms : ℕ
retry_delay_cap_ms = 2000

-- The values of the two headers that `retry_delay` reads, where they are present and text.
pub record Headers : Type 0 where
  pub retry_after : Option Text
  pub backoff : Option Text

unfoldable pub parse_seconds_header : Option Text → Option ℕ
parse_seconds_header value = do text ← value; parse_u64 (trim text)

-- `a.into_iter().chain(b).max()`.
abbrev pub max_option : Option ℕ → Option ℕ → Option ℕ
max_option none b = b
max_option (some a) none = some a
max_option (some a) (some b) = some (max a b)

abbrev pub saturating_mul : ℕ → ℕ → ℕ
saturating_mul a b = min (a * b) (2 ^ 64 - 1)

abbrev delay_of : Option ℕ → ℕ
delay_of none = retry_delay_default_ms
delay_of (some seconds) = saturating_mul seconds 1000

unfoldable pub retry_delay : Headers → ℕ
retry_delay headers =
    let retry_after = parse_seconds_header headers.retry_after in
    let backoff = parse_seconds_header headers.backoff in
    min (delay_of (max_option retry_after backoff)) retry_delay_cap_ms

-- What the delay is: the cap, or the number of seconds of the header that asks for more, or half a
-- second where neither header holds a number.
abbrev pub AsksFor : Headers → ℕ → Type 0
AsksFor headers seconds =
    (parse_seconds_header headers.retry_after ≡ some seconds)
    ⊎ (parse_seconds_header headers.backoff ≡ some seconds)

delay_of-lower :
    (a b : Option ℕ) (seconds : ℕ)
    → (a ≡ some seconds) ⊎ (b ≡ some seconds)
    → min (seconds * 1000) 2000 ≤ min (delay_of (max_option a b)) 2000
delay_of-lower none none seconds h = ground arith
delay_of-lower none (some b) seconds h = ground arith
delay_of-lower (some a) none seconds h = ground arith
delay_of-lower (some a) (some b) seconds h = ground arith

-- The delay is at most two seconds, and at least what either header asks for, up to that cap. If
-- neither header holds a number of seconds, the delay is half a second.
pub retry_delay-bounds :
    (headers : Headers)
    → (retry_delay headers ≤ retry_delay_cap_ms)
      × ((seconds : ℕ)
          → AsksFor headers seconds
          → min (seconds * 1000) retry_delay_cap_ms ≤ retry_delay headers)
      × (parse_seconds_header headers.retry_after ≡ none
          → parse_seconds_header headers.backoff ≡ none
          → retry_delay headers ≡ retry_delay_default_ms)
unfolding retry_delay
retry_delay-bounds headers = (
  ground arith,
  (λ seconds h.
      delay_of-lower (parse_seconds_header headers.retry_after)
        (parse_seconds_header headers.backoff) seconds h),
  (λ e f. rw (e, f) refl),
)

-- ===== src/Errors/Bounded.antt =====
-- The size of an error's reason.
use paperbridge.Errors.{
  ZoteroMcpError, api, commands_for, config, from_error, http, input_suggestions, invalid_input,
  missing_config, parts_of, serde,
}
use paperbridge.Prelude.{
  Bool, Bool-cases, [], arith, false, inl, inr, is_empty, ltb, refl, suc, true, zero, ℕ, ◌-◌, ◌==◌,
  ◌||◌, ◌↔◌, ◌∷◌, ◌≡◌, ◌≤◌, ◌⊎◌,
}
use paperbridge.Text.{Text, byte_len, codes, contains, len_utf8}
use paperbridge.Text.Bytes.{byte_len-append, byte_take, is_char_boundary}
use paperbridge.Errors.Redact.{
  Secrets, bound_message, floor_boundary, hide_all, max_error_bytes, sanitize_message, truncated,
}

byte_take-le : (n : ℕ) (s : Text) → is_char_boundary s n ≡ true → byte_len (byte_take n s) ≤ n
unfolding byte_take is_char_boundary byte_len
byte_take-le n [] h = omega arith
byte_take-le n (c ∷ s) h = elim (Bool-cases (n == 0)) [
  | inl e ↦ rw e (ground arith)
  | inr e ↦
      let inside = byte_take-le (n - len_utf8 c) s (ground arith) in
      let fits : len_utf8 c ≤ n = ground arith in rw e (omega arith)
]

floor_boundary_lem :
    (s : Text) (n : ℕ) → (is_char_boundary s (floor_boundary s n) ≡ true) × (floor_boundary s n ≤ n)
unfolding floor_boundary is_char_boundary
floor_boundary_lem [] zero = (refl, omega arith)
floor_boundary_lem (c ∷ s) zero = (refl, omega arith)
floor_boundary_lem s (suc n) =
    let (boundary, le) = floor_boundary_lem s n in
    elim (Bool-cases (is_char_boundary s (suc n))) [
      | inl e ↦ rw e (e, omega arith)
      | inr e ↦ rw e (boundary, omega arith)
    ]

byte_len-truncated : byte_len truncated ≡ 12
unfolding byte_len len_utf8
byte_len-truncated = refl

byte_len-bound_message : (s : Text) → byte_len (bound_message s) ≤ max_error_bytes
unfolding bound_message
byte_len-bound_message s = elim (Bool-cases (ltb max_error_bytes (byte_len s))) [
  | inl e ↦
      let at = floor_boundary s (max_error_bytes - 12) in
      let (boundary, le) = floor_boundary_lem s (max_error_bytes - 12) in
      let front = byte_take-le at s boundary in
      let size = byte_len-append (byte_take at s) truncated in
      let tail = byte_len-truncated in rw e (omega arith)
  | inr e ↦ rw e (ground arith)
]

-- A reason that is short enough is kept whole.
bound_message_short : (s : Text) → byte_len s ≤ max_error_bytes → bound_message s ≡ s
unfolding bound_message
bound_message_short s h =
    (let short : ltb max_error_bytes (byte_len s) ≡ false = ground arith in rw short refl)

-- The errors of a request that may succeed later.
abbrev pub MayRetry : ZoteroMcpError → Type 0
MayRetry (config reason) = ⊥
MayRetry (missing_config name) = ⊥
MayRetry (invalid_input reason) = ⊥
MayRetry (http reason) = Unit
MayRetry (serde reason) = ⊥
MayRetry (api status message) = (status ≡ 429) ⊎ (500 ≤ status)

commands_for-ne : (a b c d e : Bool) → is_empty (commands_for a b c d e) ≡ false
commands_for-ne true b c d e = refl
commands_for-ne false true c d e = refl
commands_for-ne false false true d e = refl
commands_for-ne false false false true e = refl
commands_for-ne false false false false true = refl
commands_for-ne false false false false false = refl

input_suggestions-ne : (reason : Text) → is_empty (input_suggestions reason) ≡ false
unfolding input_suggestions
input_suggestions-ne reason =
    commands_for-ne (contains (codes "Unknown config key") reason)
      (contains (codes "JSON corpus export requires --json") reason)
      (contains (codes "--format bibtex conflicts with --json") reason)
      (contains (codes "search query") reason || contains (codes "Search query") reason)
      (contains (codes "selector") reason
        || (contains (codes "fulltext") reason || contains (codes "open_paper") reason))

suggestions-ne : (e : ZoteroMcpError) → is_empty (parts_of e).suggestions ≡ false
unfolding parts_of
suggestions-ne (config reason) = refl
suggestions-ne (missing_config name) = refl
suggestions-ne (invalid_input reason) = input_suggestions-ne reason
suggestions-ne (http reason) = refl
suggestions-ne (serde reason) = refl
suggestions-ne (api status message) = refl

retryable_iff : (e : ZoteroMcpError) → ((parts_of e).retryable ≡ true) ↔ MayRetry e
unfolding parts_of
retryable_iff (config reason) = ground arith
retryable_iff (missing_config name) = ground arith
retryable_iff (invalid_input reason) = ground arith
retryable_iff (http reason) = ((λ h. tt), (λ h. refl))
retryable_iff (serde reason) = ground arith
retryable_iff (api status message) = ground arith

-- An answer to an error: its reason has at most 4096 bytes, whatever the error says, and is the whole
-- redacted reason where that fits. It offers a suggestion at least, and says that another try may help
-- exactly for failed requests and for the statuses 429 and from 500 on.
pub from_error-bounds :
    (s : Secrets) (e : ZoteroMcpError)
    → (byte_len (from_error s e).reason ≤ max_error_bytes)
      × (byte_len (hide_all s [] (parts_of e).reason) ≤ max_error_bytes
          → (from_error s e).reason ≡ hide_all s [] (parts_of e).reason)
      × (is_empty (from_error s e).suggestions ≡ false)
      × (((from_error s e).retryable ≡ true) ↔ MayRetry e)
unfolding from_error sanitize_message
from_error-bounds s e = (
  byte_len-bound_message (hide_all s [] (parts_of e).reason),
  bound_message_short (hide_all s [] (parts_of e).reason),
  suggestions-ne e,
  retryable_iff e,
)

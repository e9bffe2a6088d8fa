-- ===== src/Errors/Redact.antt =====
-- `sanitize_message` of src/error.rs: no credentials in an answer, and a bounded one.
use paperbridge.Prelude.{
  Bool, List, Option, [], foldl, if◌then◌else◌, is_empty, length, ltb, none, option_or, skip, some,
  suc, zero, ℕ, ◌++◌, ◌-◌, ◌==◌, ◌>>=◌, ◌||◌, ◌∷◌,
}
use paperbridge.Text.{
  Text, byte_len, codes, is_whitespace, split_once, split_whitespace, starts_with, strip_prefix,
  to_ascii_lowercase,
}
use paperbridge.Text.Bytes.{byte_take, is_char_boundary}

-- The secrets of the environment, and `urlencoding::encode`.
pub record Secrets : Type 0 where
  pub environment : List Text
  pub encode : Text → Text

abbrev redacted : Text
redacted = codes "<redacted>"

-- `s.replace(p, r)` for a `p` that is not empty, behind so many characters of a match.
unfoldable pub replace_from : ℕ → Text → Text → Text → Text
replace_from skip p r [] = []
replace_from (suc skip) p r (c ∷ s) = replace_from skip p r s
replace_from zero p r (c ∷ s) =
    let behind = replace_from (length p - 1) p r s in
    let next = replace_from 0 p r s in if starts_with p (c ∷ s) then r ++ behind else c ∷ next

abbrev replace : Text → Text → Text → Text
replace p r s = replace_from 0 p r s

-- The loop over the secrets.
unfoldable pub hide_secret : Secrets → Text → Text → Text
unfolding replace_from
hide_secret env result secret =
    if is_empty secret
    then result
    else replace (env.encode secret) redacted (replace secret redacted result)

abbrev ends_value : ℕ → Bool
ends_value c =
    is_whitespace c
    || (c == b'&' || (c == b'#' || (c == 0x22 || (c == 0x27 || (c == b'<' || c == b'>')))))

-- Where the loop over a key stands: looking for the key, behind so many characters of it to copy, at
-- the first character of its value, or behind that.
pub data Place : Type 0 where
  outside at_value in_value : Place
  in_key : ℕ → Place

abbrev behind_key : ℕ → Place
behind_key zero = at_value
behind_key (suc n) = in_key (suc n)

-- One key: what follows it, up to a character that ends a value, is replaced. The keys begin with
-- letters, which do not end a value.
unfoldable pub redact_values : Text → Place → Text → Text
redact_values key place [] = []
redact_values key outside (c ∷ s) =
    let found = starts_with key (to_ascii_lowercase (c ∷ s)) in
    c ∷ redact_values key (if found then behind_key (length key - 1) else outside) s
redact_values key (in_key zero) (c ∷ s) = c ∷ redact_values key at_value s
redact_values key (in_key (suc n)) (c ∷ s) = c ∷ redact_values key (behind_key n) s
redact_values key at_value (c ∷ s) =
    let ends = ends_value c in
    let rest = redact_values key (if ends then outside else in_value) s in
    if ends then c ∷ rest else redacted ++ rest
redact_values key in_value (c ∷ s) =
    let ends = ends_value c in
    let rest = redact_values key (if ends then outside else in_value) s in
    if ends then c ∷ rest else rest

abbrev secret_names : List Text
secret_names =
    codes "api_key="
    ∷ codes "apikey="
    ∷ codes "access_token="
    ∷ codes "token="
    ∷ codes "password="
    ∷ codes "secret="
    ∷ codes "signature="
    ∷ codes "key="
    ∷ []

-- The text behind the first `p`.
abbrev behind_first : Text → Text → Option Text
behind_first p [] = strip_prefix p []
behind_first p (c ∷ s) = option_or (strip_prefix p (c ∷ s)) (behind_first p s)

abbrev user_of : Option (Text × Text) → Option Text
user_of none = none
user_of (some (user, host)) = if is_empty user then none else some user

abbrev hide_user : Text → Option Text → Text
hide_user result none = result
hide_user result (some user) = replace user redacted result

-- The user information of a URL.
unfoldable pub hide_userinfo : Text → Text → Text
unfolding replace_from
hide_userinfo result token =
    hide_user result (user_of (behind_first (codes "://") token >>= λ rest. split_once b'@' rest))

abbrev pub max_error_bytes : ℕ
max_error_bytes = 4096

-- The loop that looks for a boundary.
unfoldable pub floor_boundary : Text → ℕ → ℕ
floor_boundary s zero = zero
floor_boundary s (suc n) =
    let lower = floor_boundary s n in if is_char_boundary s (suc n) then suc n else lower

abbrev pub truncated : Text
truncated = codes " [truncated]"

unfoldable pub bound_message : Text → Text
bound_message result =
    if ltb max_error_bytes (byte_len result)
    then byte_take (floor_boundary result (max_error_bytes - 12)) result ++ truncated
    else result

-- What is hidden, before the bound.
unfoldable pub hide_all : Secrets → List Text → Text → Text
unfolding hide_secret redact_values hide_userinfo
hide_all env secrets message =
    let known = foldl (hide_secret env) message (secrets ++ env.environment) in
    let named = foldl (λ result key. redact_values key outside result) known secret_names in
    foldl hide_userinfo named (split_whitespace named)

unfoldable pub sanitize_message : Secrets → List Text → Text → Text
sanitize_message env secrets message = bound_message (hide_all env secrets message)

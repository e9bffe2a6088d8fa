-- ===== src/Update.antt =====
-- `is_newer` and `is_cache_stale` of src/update.rs: whether a release is newer than this program.
pub mod Order
use paperbridge.Prelude.{
  Bool, List, Option, [], if◌then◌else◌, ltb, none, not, some, ℕ, ◌&&◌, ◌*◌, ◌-◌, ◌==◌, ◌>>=◌, ◌||◌,
  ◌∷◌,
}
use paperbridge.Text.{Text, eq_text}
use paperbridge.Router.Delay.{parse_u64}

pub record CacheEntry : Type 0 where
  pub checked_at : ℕ
  pub latest_tag : Text

abbrev pub cache_ttl_secs : ℕ
cache_ttl_secs = 24 * 60 * 60

unfoldable pub is_cache_stale : ℕ → CacheEntry → Bool
is_cache_stale now_secs entry = ltb cache_ttl_secs (now_secs - entry.checked_at)

-- `trim_start_matches('v')`.
unfoldable pub skip_v : Text → Text
skip_v [] = []
skip_v (c ∷ s) = let rest = skip_v s in if c == b'v' then rest else c ∷ s

-- `split` at the characters of a set.
abbrev pub front_piece : ℕ → List Text → List Text
front_piece c [] = (c ∷ []) ∷ []
front_piece c (piece ∷ pieces) = (c ∷ piece) ∷ pieces

unfoldable pub split_at_chars : (ℕ → Bool) → Text → List Text
split_at_chars sep [] = [] ∷ []
split_at_chars sep (c ∷ s) =
    let rest = split_at_chars sep s in if sep c then [] ∷ rest else front_piece c rest

abbrev pub first_piece : List Text → Text
first_piece [] = []
first_piece (piece ∷ pieces) = piece

abbrev pub Version : Type 0
Version = ℕ × (ℕ × ℕ)

-- The first three parts; what stands behind them is not read.
abbrev pub version_of : List Text → Option Version
version_of (a ∷ b ∷ c ∷ more) = parse_u64 a >>= λ major.
    parse_u64 b >>= λ minor. parse_u64 c >>= λ patch. some (major, (minor, patch))
version_of (a ∷ b ∷ []) = none
version_of (a ∷ []) = none
version_of [] = none

abbrev pub is_suffix_mark : ℕ → Bool
is_suffix_mark c = c == b'-' || c == b'+'

abbrev pub is_dot : ℕ → Bool
is_dot c = c == b'.'

unfoldable pub parse_semver : Text → Option Version
unfolding skip_v split_at_chars
parse_semver s =
    version_of (split_at_chars is_dot (first_piece (split_at_chars is_suffix_mark (skip_v s))))

-- The order of tuples, as a test of `a > b`.
unfoldable pub is_greater : Version → Version → Bool
is_greater (a, (b, c)) (a', (b', c')) = ltb a' a || (a == a' && (ltb b' b || (b == b' && ltb c' c)))

abbrev pub newer_or_differs : Text → Text → Option Version → Option Version → Bool
newer_or_differs latest current (some a) (some b) = is_greater a b
newer_or_differs latest current (some a) none = not (eq_text (skip_v latest) (skip_v current))
newer_or_differs latest current none b = not (eq_text (skip_v latest) (skip_v current))

unfoldable pub is_newer : Text → Text → Bool
unfolding parse_semver is_greater
is_newer latest current =
    newer_or_differs latest current (parse_semver latest) (parse_semver current)

-- ===== src/Identifiers.antt =====
-- The canonical forms of DOIs and arXiv ids of src/hit_enrich.rs.
pub mod Doi
pub mod Arxiv
use paperbridge.Prelude.{
  Bool, Option, all, if◌then◌else◌, is_empty, none, not, some, ◌&&◌, ◌++◌, ◌>>=◌, ◌≡◌,
}
use paperbridge.Text.{Text, codes, is_ascii_digit, is_whitespace, split_once, strip_prefix, trim}

-- `str::to_lowercase`, which follows the Unicode tables: a parameter. What is lower case already
-- stays as it is, in parts too, and a text of lower case is a fixed point.
pub record Lowercase : Type 0 where
  pub to_lowercase : Text → Text
  pub lower_idem : (s : Text) → to_lowercase (to_lowercase s) ≡ to_lowercase s
  pub lower_part :
      (before s after : Text)
      → to_lowercase (before ++ (s ++ after)) ≡ before ++ (s ++ after)
      → to_lowercase s ≡ s

-- `a.or_else(|| b)` and `a.unwrap_or(d)`.
abbrev pub or_else : Option Text → Option Text → Option Text
or_else none b = b
or_else (some a) b = some a

abbrev pub unwrap_or : Option Text → Text → Text
unwrap_or none d = d
unwrap_or (some a) d = a

unfoldable pub strip_scheme : Text → Text
strip_scheme s =
    unwrap_or (or_else (strip_prefix (codes "https://") s) (strip_prefix (codes "http://") s)) s

module _ (l : Lowercase) where
  unfoldable pub strip_doi_prefix : Text → Text
  unfolding strip_scheme
  strip_doi_prefix raw =
      let lowered = l.to_lowercase (trim raw) in
      let rest = strip_scheme lowered in
      let host =
        unwrap_or (or_else (strip_prefix (codes "www.") rest) (strip_prefix (codes "dx.") rest))
          rest in
      let stripped =
        unwrap_or
          (or_else (strip_prefix (codes "doi.org/") host) (strip_prefix (codes "doi:") lowered))
          lowered in
      trim stripped

-- `(!prefix.is_empty() && … ).then_some(n)`.
abbrev pub no_whitespace : Text → Bool
no_whitespace = all (λ c. not (is_whitespace c))

unfoldable pub is_doi_parts : Text → Text × Text → Bool
is_doi_parts n (prefix, suffix) =
    not (is_empty prefix) && all is_ascii_digit prefix && not (is_empty suffix) && no_whitespace n

-- The tests of `normalize_doi_str` on the stripped text.
unfoldable pub checked_doi : Text → Option Text
checked_doi n = do
  after ← strip_prefix (codes "10.") n
  parts ← split_once 0x2F after
  if is_doi_parts n parts then some n else none

module _ (l : Lowercase) where
  unfoldable pub normalize_doi_str : Text → Option Text
  unfolding strip_doi_prefix
  normalize_doi_str raw = checked_doi (strip_doi_prefix l raw)

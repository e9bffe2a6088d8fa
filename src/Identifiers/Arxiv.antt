-- ===== src/Identifiers/Arxiv.antt =====
-- The canonical form of an arXiv id (src/hit_enrich.rs).
use paperbridge.Prelude.{
  ==_iff, Bool, Bool-cases, Option, Option-cases, [], all, append-nil, arith, false, if◌then◌else◌,
  inl, inr, is_empty, leb, none, not, refl, some, sym, true, ℕ, ◌&&◌, ◌++◌, ◌==◌, ◌||◌, ◌∷◌, ◌≡◌,
  ◌⊎◌, length, some-injective, subst, ◌≤◌,
}
use paperbridge.Text.{
  Text, byte_len, codes, is_ascii_digit, split_once, strip_prefix, trim, within, len_utf8,
}
use paperbridge.Identifiers.{or_else, unwrap_or, strip_scheme, Lowercase}
use paperbridge.Identifiers.Doi.{split_once_sound}
use mathlib.Core.List.{reverse}

-- `s.strip_suffix(p)`.
abbrev strip_suffix : Text → Text → Option Text
strip_suffix p s = reversed (strip_prefix (reverse p) (reverse s))
  where
    reversed : Option Text → Option Text
    reversed none = none
    reversed (some r) = some (reverse r)

module _ (l : Lowercase) where
  unfoldable pub strip_arxiv_prefix : Text → Text
  unfolding strip_scheme
  strip_arxiv_prefix raw =
      let lowered = l.to_lowercase (trim raw) in
      let rest = strip_scheme lowered in
      let host =
        unwrap_or (or_else (strip_prefix (codes "www.") rest) (strip_prefix (codes "export.") rest))
          rest in
      let id = trim (
        unwrap_or
          (or_else (strip_prefix (codes "arxiv.org/abs/") host) (
            or_else (strip_prefix (codes "arxiv.org/pdf/") host)
              (strip_prefix (codes "arxiv:") lowered)))
          lowered) in
      unwrap_or (strip_suffix (codes ".pdf") id) id

-- The parts around the last occurrence of a character: `rfind`.
unfoldable pub around_last : ℕ → Text → Option (Text × Text)
around_last d [] = none
around_last d (c ∷ s) = elim (around_last d s) [
  | some (a, b) ↦ some (c ∷ a, b)
  | none ↦ if c == d then some ([], s) else none
]

-- The part before the version, if there is one.
abbrev before_version : Text → Option (Text × Text) → Text
before_version id none = id
before_version id (some (base, version)) =
    if not (is_empty version) && all is_ascii_digit version then base else id

unfoldable pub strip_arxiv_version : Text → Text
unfolding around_last
strip_arxiv_version id = before_version id (around_last 0x76 id)

abbrev is_ascii_alphabetic : ℕ → Bool
is_ascii_alphabetic c = within b'a' b'z' c || within b'A' b'Z' c

-- `2401.12345`, and `hep-th/9901001`.
unfoldable pub is_modern : Option (Text × Text) → Bool
is_modern none = false
is_modern (some (date, number)) =
    (byte_len date == 4)
    && ((leb 4 (byte_len number) && leb (byte_len number) 5)
        && (all is_ascii_digit date && all is_ascii_digit number))

unfoldable pub is_legacy : Option (Text × Text) → Bool
is_legacy none = false
is_legacy (some (archive, number)) =
    not (is_empty archive)
    && (all (λ b. is_ascii_alphabetic b || ((b == b'-') || (b == b'.'))) archive
        && ((byte_len number == 7) && all is_ascii_digit number))

unfoldable pub checked_arxiv : Text → Option Text
checked_arxiv base =
    if is_modern (split_once b'.' base) || is_legacy (split_once b'/' base) then some base else none

module _ (l : Lowercase) where
  unfoldable pub normalize_arxiv_str : Text → Option Text
  unfolding strip_arxiv_prefix strip_arxiv_version checked_arxiv is_modern is_legacy
  normalize_arxiv_str raw =
      let id = strip_arxiv_prefix l raw in
      if is_empty id then none else checked_arxiv (strip_arxiv_version id)

around_last_sound : (d : ℕ) (s : Text) {a b : Text} → around_last d s ≡ some (a, b) → s ≡ a ++ d ∷ b
unfolding around_last
around_last_sound d [] h = cc
around_last_sound d (c ∷ s) {a} {b} h = elim (Option-cases (around_last d s)) [
  | inr ((a', b'), e) ↦ let ends = rw e at h in let later = around_last_sound d s e in cc
  | inl e ↦ elim (Bool-cases (c == d)) [
    | inl hit ↦ (let ends = rw (e, hit) at h in ground (arith, hit, ends, ==_iff c d))
    | inr miss ↦ (let ends = rw (e, miss) at h in ground arith)
  ]
]

-- What is stripped is nothing, or a `v` and a number.
pub IsVersion : Text → Type 0
IsVersion rest =
    (rest ≡ [])
    ⊎ ((version : Text) × (rest ≡ b'v' ∷ version)
        × (is_empty version ≡ false)
        × (all is_ascii_digit version ≡ true))

-- Stripping the version of an id takes off its end nothing, or a `v` and at least one digit with
-- only digits behind it: the rest of the id stays as it is.
pub strip_arxiv_version-IsVersion :
    (id : Text) → (rest : Text) × (id ≡ strip_arxiv_version id ++ rest) × IsVersion rest
unfolding strip_arxiv_version IsVersion
strip_arxiv_version-IsVersion id = elim (Option-cases (around_last 0x76 id)) [
  | inl e ↦ rw e ([], sym (append-nil id), inl refl)
  | inr ((base, version), e) ↦
      elim (Bool-cases (not (is_empty version) && all is_ascii_digit version)) [
        | inl numbered ↦
            rw (e, numbered)
              (
                b'v' ∷ version,
                around_last_sound 0x76 id e,
                inr (version, refl, ground arith, ground arith),
              )
        | inr other ↦ rw (e, other) ([], sym (append-nil id), inl refl)
      ]
]

byte_len-digits : (s : Text) → all is_ascii_digit s ≡ true → byte_len s ≡ length s
unfolding byte_len len_utf8
byte_len-digits [] h = refl
byte_len-digits (c ∷ s) h = ground (arith, byte_len-digits s)

-- Four digits, a point and four or five digits; or a name, a slash and seven digits.
pub record IsModern (n : Text) : Type 0 where
  pub date : Text
  pub number : Text
  pub joined : n ≡ date ++ b'.' ∷ number
  pub date_digits : (length date ≡ 4) × (all is_ascii_digit date ≡ true)
  pub number_digits : (4 ≤ length number) × (length number ≤ 5) × (all is_ascii_digit number ≡ true)

pub record IsLegacy (n : Text) : Type 0 where
  pub archive : Text
  pub number : Text
  pub joined : n ≡ archive ++ b'/' ∷ number
  pub archive_nonempty : is_empty archive ≡ false
  pub number_digits : (length number ≡ 7) × (all is_ascii_digit number ≡ true)

is_modern-IsModern : (n : Text) → is_modern (split_once b'.' n) ≡ true → IsModern n
unfolding is_modern
is_modern-IsModern n h = elim (Option-cases (split_once b'.' n)) [
  | inl e ↦ (let none_found = rw e at h in ground arith)
  | inr ((date, number), e) ↦
      let tests = rw e at h in
      let date_size = byte_len-digits date (ground arith) in
      let number_size = byte_len-digits number (ground arith) in
      record {
        date = date;
        number = number;
        joined = split_once_sound b'.' n e;
        date_digits = (ground (arith, date_size), ground arith);
        number_digits = (ground (arith, number_size), ground (arith, number_size), ground arith);
      }
]

is_legacy-IsLegacy : (n : Text) → is_legacy (split_once b'/' n) ≡ true → IsLegacy n
unfolding is_legacy
is_legacy-IsLegacy n h = elim (Option-cases (split_once b'/' n)) [
  | inl e ↦ (let none_found = rw e at h in ground arith)
  | inr ((archive, number), e) ↦
      let tests = rw e at h in
      let number_size = byte_len-digits number (ground arith) in
      record {
        archive = archive;
        number = number;
        joined = split_once_sound b'/' n e;
        archive_nonempty = ground arith;
        number_digits = (ground (arith, number_size), ground arith);
      }
]

checked_arxiv_sound : (s : Text) {n : Text} → checked_arxiv s ≡ some n → IsModern n ⊎ IsLegacy n
unfolding checked_arxiv
checked_arxiv_sound s {n} h = elim (Bool-cases (is_modern (split_once b'.' s))) [
  | inl modern ↦
      let same : s ≡ n = some-injective _ _ (rw modern at h) in
      inl (subst (λ x. IsModern x) same (is_modern-IsModern s modern))
  | inr not_modern ↦ elim (Bool-cases (is_legacy (split_once b'/' s))) [
    | inl legacy ↦
        let same : s ≡ n = some-injective _ _ (rw (not_modern, legacy) at h) in
        inr (subst (λ x. IsLegacy x) same (is_legacy-IsLegacy s legacy))
    | inr neither ↦ (let refused = rw (not_modern, neither) at h in ground arith)
  ]
]

-- Whatever text is given, a result of `normalize_arxiv_str` is four digits, a point and four or five
-- digits, or at least one character, a slash and seven digits.
pub normalize_arxiv_str_sound :
    (l : Lowercase) (raw : Text) {n : Text}
    → normalize_arxiv_str l raw ≡ some n
    → IsModern n ⊎ IsLegacy n
unfolding normalize_arxiv_str
normalize_arxiv_str_sound l raw h = elim (Bool-cases (is_empty (strip_arxiv_prefix l raw))) [
  | inl blank ↦ (let refused = rw blank at h in ground arith)
  | inr id ↦ checked_arxiv_sound (strip_arxiv_version (strip_arxiv_prefix l raw)) (rw id at h)
]

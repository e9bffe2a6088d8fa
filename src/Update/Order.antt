-- ===== src/Update/Order.antt =====
-- Versions that are printed, and their order.
use paperbridge.Prelude.{
  All, All-append, All-imp, Bool, [], arith, false, is_empty, refl, some, true, ℕ, ◌++◌, ◌<◌, ◌==◌,
  ◌^◌, ◌↔◌, ◌∷◌, ◌≡◌, ◌⊎◌,
}
use paperbridge.Text.{Text, is_ascii_digit}
use paperbridge.Validation.Decimal.{to_decimal}
use paperbridge.Paper.Selector.Indices.{
  AllDigits, parse_u64-to_decimal, to_decimal-AllDigits, to_decimal-full,
}
use paperbridge.Update.{
  Version, is_dot, is_greater, is_newer, is_suffix_mark, parse_semver, skip_v, split_at_chars,
}

-- A piece that is followed by a separator, and one that is the last.
split-front :
    (sep : ℕ → Bool) (s : Text) (d : ℕ) (t : Text)
    → All (λ c. sep c ≡ false) s
    → sep d ≡ true
    → split_at_chars sep (s ++ d ∷ t) ≡ s ∷ split_at_chars sep t
unfolding split_at_chars
split-front sep [] d t h e = rw e refl
split-front sep (c ∷ s) d t (plain, h) e = rw (plain, split-front sep s d t h e) refl

split_last :
    (sep : ℕ → Bool) (s : Text) → All (λ c. sep c ≡ false) s → split_at_chars sep s ≡ s ∷ []
unfolding split_at_chars
split_last sep [] h = refl
split_last sep (c ∷ s) (plain, h) = rw (plain, split_last sep s h) refl

-- `major.minor.patch`.
abbrev pub print_version : Version → Text
print_version (a, (b, c)) = to_decimal a ++ (b'.' ∷ (to_decimal b ++ (b'.' ∷ to_decimal c)))

abbrev pub FitsU64 : Version → Type 0
FitsU64 (a, (b, c)) = (a < 2 ^ 64) × (b < 2 ^ 64) × (c < 2 ^ 64)

digits-plain :
    (sep : ℕ → Bool)
    → ((c : ℕ) → is_ascii_digit c ≡ true → sep c ≡ false)
    → (n : ℕ) → All (λ c. sep c ≡ false) (to_decimal n)
digits-plain sep h n =
    All-imp (λ c. is_ascii_digit c ≡ true) (λ c. sep c ≡ false) h (to_decimal n)
      (to_decimal-AllDigits n)

digit-no_dot : (c : ℕ) → is_ascii_digit c ≡ true → is_dot c ≡ false
digit-no_dot c h = ground arith

digit-no_mark : (c : ℕ) → is_ascii_digit c ≡ true → is_suffix_mark c ≡ false
digit-no_mark c h = ground arith

print_version-no_mark : (v : Version) → All (λ c. is_suffix_mark c ≡ false) (print_version v)
print_version-no_mark (a, (b, c)) =
    let P : ℕ → Type 0 = λ c. is_suffix_mark c ≡ false in
    let plain = digits-plain is_suffix_mark digit-no_mark in
    All-append P (to_decimal a) (b'.' ∷ (to_decimal b ++ (b'.' ∷ to_decimal c))) (plain a)
      (refl, All-append P (to_decimal b) (b'.' ∷ to_decimal c) (plain b) (refl, plain c))

skip_v-digits : (s t : Text) → is_empty s ≡ false → AllDigits s → skip_v (s ++ t) ≡ s ++ t
unfolding skip_v
skip_v-digits [] t h digits = absurd (cc)
skip_v-digits (c ∷ s) t h (digit, _) =
    (let plain : (c == b'v') ≡ false = ground arith in rw plain refl)

-- A version that is printed, with or without a `v` in front, is read back.
parse_semver-print : (v : Version) → FitsU64 v → parse_semver (print_version v) ≡ some v
unfolding parse_semver
parse_semver-print (a, (b, c)) (small, small', small'') =
    let plain = digits-plain is_dot digit-no_dot in
    let whole =
      skip_v-digits (to_decimal a) (b'.' ∷ (to_decimal b ++ (b'.' ∷ to_decimal c)))
        (to_decimal-full a) (to_decimal-AllDigits a) in
    let core =
      split_last is_suffix_mark (print_version (a, (b, c))) (print_version-no_mark (a, (b, c))) in
    let first =
      split-front is_dot (to_decimal a) b'.' (to_decimal b ++ (b'.' ∷ to_decimal c)) (plain a)
        refl in
    let second = split-front is_dot (to_decimal b) b'.' (to_decimal c) (plain b) refl in
    let third = split_last is_dot (to_decimal c) (plain c) in
    rw
      (
        whole,
        core,
        first,
        second,
        third,
        parse_u64-to_decimal a small,
        parse_u64-to_decimal b small',
        parse_u64-to_decimal c small'',
      )
      refl

-- The lexicographic order.
abbrev pub Above : Version → Version → Type 0
Above (a, (b, c)) (a', (b', c')) = (a' < a) ⊎ ((a ≡ a') × ((b' < b) ⊎ ((b ≡ b') × (c' < c))))

is_greater_iff : (v u : Version) → (is_greater v u ≡ true) ↔ Above v u
unfolding is_greater
is_greater_iff (a, (b, c)) (a', (b', c')) = ground arith

parse_semver-tag : (v : Version) → FitsU64 v → parse_semver (b'v' ∷ print_version v) ≡ some v
unfolding parse_semver skip_v
parse_semver-tag v h = parse_semver-print v h

-- A release's tag, printed as a `v` and three numbers in `u64`, is newer than a version printed without
-- the `v` exactly when its numbers are above the other's, the first of them that differ deciding; so
-- the tag of the version itself is not.
pub is_newer-print :
    (tag current : Version)
    → FitsU64 tag
    → FitsU64 current
    → (is_newer (b'v' ∷ print_version tag) (print_version current) ≡ true) ↔ Above tag current
unfolding is_newer
is_newer-print tag current h k =
    rw (parse_semver-tag tag h, parse_semver-print current k) (is_greater_iff tag current)

-- ===== src/Identifiers/Doi.antt =====
-- A canonical DOI is its own canonical form.
use paperbridge.Prelude.{
  >>=-eq-some, All, Bool-cases, [], all, ap, arith, false, inl, inr, is_empty, some, subst, sym,
  true, ℕ, ◌++◌, ◌==◌, ◌∙◌, ◌∷◌, ◌≡◌, ==_iff, Option-cases, append-nil, refl, Option, append_assoc,
  none,
}
use paperbridge.Text.{
  Text, codes, is_ascii_digit, is_whitespace, split_once, strip_prefix, push_trimmed, trim,
  trim_end, trim_start,
}
use paperbridge.Text.Prefix.{strip_prefix_sound}
use paperbridge.Text.Sizes.{trim_ink}
use paperbridge.Identifiers.{
  checked_doi, is_doi_parts, no_whitespace, Lowercase, strip_doi_prefix, strip_scheme,
  normalize_doi_str, or_else, unwrap_or,
}

-- `10.`, digits, a slash and more, without white space.
pub record IsDoi (n : Text) : Type 0 where
  pub registrant : Text
  pub suffix : Text
  pub joined : n ≡ codes "10." ++ (registrant ++ 0x2F ∷ suffix)
  pub registrant_nonempty : is_empty registrant ≡ false
  pub registrant_digits : all is_ascii_digit registrant ≡ true
  pub suffix_nonempty : is_empty suffix ≡ false
  pub solid : no_whitespace n ≡ true

pub split_once_sound :
    (d : ℕ) (s : Text) {a b : Text} → split_once d s ≡ some (a, b) → s ≡ a ++ d ∷ b
unfolding split_once
split_once_sound d [] h = cc
split_once_sound d (c ∷ s) {a} {b} h = elim (Bool-cases (c == d)) [
  | inl hit ↦ let ends = (rw (hit) at h) in ground (arith, hit, ends, ==_iff c d)
  | inr miss ↦ elim (Option-cases (split_once d s)) [
    | inl e ↦ (let ends = rw (miss, e) at h in ground arith)
    | inr ((a', b'), e) ↦ let ends = rw (miss, e) at h in let earlier = split_once_sound d s e in cc
  ]
]

checked_doi-IsDoi : (s : Text) {n : Text} → checked_doi s ≡ some n → (s ≡ n) × IsDoi n
unfolding checked_doi is_doi_parts
checked_doi-IsDoi s {n} h =
    let (after, e1, h1) = >>=-eq-some (strip_prefix (codes "10.") s) _ h in
    let ((registrant, suffix), e2, h2) = >>=-eq-some (split_once 0x2F after) _ h1 in
    let same : s ≡ n = ground arith in
    let joined : s ≡ codes "10." ++ (registrant ++ 0x2F ∷ suffix) =
      strip_prefix_sound (codes "10.") s e1
      ∙ ap (λ x. codes "10." ++ x) (split_once_sound 0x2F after e2) in
    (
      same,
      record {
        registrant = registrant;
        suffix = suffix;
        joined = sym same ∙ joined;
        registrant_nonempty = ground arith;
        registrant_digits = ground arith;
        suffix_nonempty = ground arith;
        solid = subst (λ x. no_whitespace x ≡ true) same (ground arith);
      },
    )

no_whitespace-All : (s : Text) → no_whitespace s ≡ true → All (λ c. is_whitespace c ≡ false) s
no_whitespace-All [] h = tt
no_whitespace-All (c ∷ s) h = (ground arith, no_whitespace-All s (ground arith))

-- A part of a text.
abbrev Part : Text → Text → Type 0
Part s t = (before : Text) × (after : Text) × (t ≡ before ++ (s ++ after))

Part-trans : (s t u : Text) → Part s t → Part t u → Part s u
Part-trans s t u (b, a, e) (b', a', e') = (
  b' ++ b,
  a ++ a',
  e'
      ∙ ap (λ x. b' ++ (x ++ a')) e
      ∙ (rw (append_assoc b' b (s ++ (a ++ a')), append_assoc b (s ++ a) a', append_assoc s a a')
          refl),
)

trim_start-Part : (s : Text) → (before : Text) × (s ≡ before ++ trim_start s)
unfolding trim_start
trim_start-Part [] = ([], refl)
trim_start-Part (c ∷ s) = elim (Bool-cases (is_whitespace c)) [
  | inl blank ↦ let (before, e) = trim_start-Part s in (c ∷ before, rw blank (ap (λ x. c ∷ x) e))
  | inr ink ↦ ([], rw ink refl)
]

push_trimmed-Part :
    (c : ℕ) (t after : Text) → (after' : Text) × (c ∷ (t ++ after) ≡ push_trimmed c t ++ after')
unfolding push_trimmed
push_trimmed-Part c [] after = elim (Bool-cases (is_whitespace c)) [
  | inl blank ↦ (c ∷ after, rw blank refl)
  | inr ink ↦ (after, rw ink refl)
]
push_trimmed-Part c (d ∷ r) after = (after, refl)

trim_end-Part : (s : Text) → (after : Text) × (s ≡ trim_end s ++ after)
unfolding trim_end
trim_end-Part [] = ([], refl)
trim_end-Part (c ∷ s) =
    let (after, e) = trim_end-Part s in
    let (after', e') = push_trimmed-Part c (trim_end s) after in (after', ap (λ x. c ∷ x) e ∙ e')

trim-Part : (s : Text) → Part (trim s) s
unfolding trim
trim-Part s =
    let (before, e) = trim_start-Part s in
    let (after, e') = trim_end-Part (trim_start s) in (before, after, e ∙ ap (λ x. before ++ x) e')

strip_prefix-Part : (p s : Text) {r : Text} → strip_prefix p s ≡ some r → Part r s
strip_prefix-Part p s {r} h =
    (p, [], strip_prefix_sound p s h ∙ ap (λ x. p ++ x) (sym (append-nil r)))

strip_doi_prefix-digit :
    (l : Lowercase) (r : Text)
    → trim (0x31 ∷ r) ≡ 0x31 ∷ r
    → l.to_lowercase (0x31 ∷ r) ≡ 0x31 ∷ r
    → strip_doi_prefix l (0x31 ∷ r) ≡ 0x31 ∷ r
unfolding strip_doi_prefix strip_scheme
strip_doi_prefix-digit l r t lo = rw (t, lo) t

-- What a strip that may fail leaves is a part, if both alternatives are.
unwrap_or-Part :
    (o p : Option Text) (d t : Text)
    → ((r : Text) → o ≡ some r → Part r t)
    → ((r : Text) → p ≡ some r → Part r t)
    → Part d t
    → Part (unwrap_or (or_else o p) d) t
unwrap_or-Part (some a) p d t first second whole = first a refl
unwrap_or-Part none (some b) d t first second whole = second b refl
unwrap_or-Part none none d t first second whole = whole

Part-refl : (t : Text) → Part t t
Part-refl t = ([], [], sym (append-nil t))

strip_doi_prefix-Part :
    (l : Lowercase) (raw : Text) → Part (strip_doi_prefix l raw) (l.to_lowercase (trim raw))
unfolding strip_doi_prefix strip_scheme
strip_doi_prefix-Part l raw =
    let lowered = l.to_lowercase (trim raw) in
    let rest = strip_scheme lowered in
    let rest_part : Part rest lowered =
      unwrap_or-Part (strip_prefix (codes "https://") lowered)
        (strip_prefix (codes "http://") lowered) lowered lowered
        (λ r e. strip_prefix-Part (codes "https://") lowered e)
        (λ r e. strip_prefix-Part (codes "http://") lowered e) (Part-refl lowered) in
    let host =
      unwrap_or (or_else (strip_prefix (codes "www.") rest) (strip_prefix (codes "dx.") rest))
        rest in
    let host_part : Part host lowered =
      Part-trans host rest lowered
        (unwrap_or-Part (strip_prefix (codes "www.") rest) (strip_prefix (codes "dx.") rest) rest
          rest (λ r e. strip_prefix-Part (codes "www.") rest e)
          (λ r e. strip_prefix-Part (codes "dx.") rest e) (Part-refl rest))
        rest_part in
    Part-trans _ _ lowered (trim-Part _) (
      unwrap_or-Part (strip_prefix (codes "doi.org/") host) (strip_prefix (codes "doi:") lowered)
        lowered lowered
        (λ r e. Part-trans r host lowered (strip_prefix-Part (codes "doi.org/") host e) host_part)
        (λ r e. strip_prefix-Part (codes "doi:") lowered e) (Part-refl lowered))

-- A DOI is found in no other form: whatever text is given, a result of `normalize_doi_str` is `10.`,
-- at least one digit, a slash and at least one character, without white space, and it is normalized
-- to itself.
pub normalize_doi_str_canonical :
    (l : Lowercase) (raw : Text) {n : Text}
    → normalize_doi_str l raw ≡ some n
    → IsDoi n × (normalize_doi_str l n ≡ some n)
unfolding normalize_doi_str
normalize_doi_str_canonical l raw {n} h =
    let (same, doi) = checked_doi-IsDoi (strip_doi_prefix l raw) h in
    let (before, after, e) = strip_doi_prefix-Part l raw in
    let lowered : l.to_lowercase n ≡ n =
      subst (λ x. l.to_lowercase x ≡ x) same
        (l.lower_part before (strip_doi_prefix l raw) after
          (subst (λ x. l.to_lowercase x ≡ x) e (l.lower_idem (trim raw)))) in
    let trimmed = trim_ink n (no_whitespace-All n doi.solid) in
    let fixed =
      subst (λ x. trim x ≡ x → l.to_lowercase x ≡ x → strip_doi_prefix l x ≡ x) (sym doi.joined)
        (strip_doi_prefix-digit l _) trimmed lowered in
    (doi, ap (λ x. checked_doi x) (fixed ∙ sym same) ∙ h)

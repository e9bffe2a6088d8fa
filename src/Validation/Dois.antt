-- ===== src/Validation/Dois.antt =====
-- The looser test of a DOI accepts what has a canonical form.
use paperbridge.Prelude.{
  >>=-eq-some, Bool-cases, Option-cases, [], arith, inl, inr, some, true, ℕ, ◌==◌, ◌∷◌, ◌≡◌, refl,
  subst, sym, ◌++◌,
}
use paperbridge.Text.Prefix.{strip_prefix_sound}
use paperbridge.Text.{Text, codes, contains_char, split_once, starts_with, strip_prefix}
use paperbridge.Identifiers.{Lowercase, checked_doi, normalize_doi_str, strip_doi_prefix}
use paperbridge.Validation.{looks_like_doi, validate_doi, is_blank}

split_once-contains :
    (d : ℕ) (s : Text) {p : Text × Text} → split_once d s ≡ some p → contains_char d s ≡ true
unfolding split_once
split_once-contains d [] h = cc
split_once-contains d (c ∷ s) {p} h = elim (Bool-cases (c == d)) [
  | inl hit ↦ ground arith
  | inr miss ↦ elim (Option-cases (split_once d s)) [
    | inl e ↦ (let ends = rw (miss, e) at h in ground arith)
    | inr (q, e) ↦ ground (arith, split_once-contains d s e)
  ]
]

starts_with-strip_prefix :
    (p s : Text) {after : Text} → strip_prefix p s ≡ some after → starts_with p s ≡ true
starts_with-strip_prefix [] s h = refl
starts_with-strip_prefix (p ∷ ps) [] h = cc
starts_with-strip_prefix (p ∷ ps) (c ∷ s) h = elim (Bool-cases (p == c)) [
  | inl same ↦ rw same (starts_with-strip_prefix ps s (rw same at h))
  | inr other ↦ ground arith
]

contains_char-append :
    (d : ℕ) (p s : Text) → contains_char d s ≡ true → contains_char d (p ++ s) ≡ true
contains_char-append d [] s h = h
contains_char-append d (c ∷ p) s h = ground (arith, contains_char-append d p s h)

looks_silent :
    (l : Lowercase) (raw : Text)
    → looks_like_doi l raw ≡ true
    → (looks_like_doi l raw ≡ true) × (validate_doi l (some raw) ≡ [])
unfolding validate_doi
looks_silent l raw h = elim (Bool-cases (is_blank raw)) [
  | inl blank ↦ (h, rw (h, blank) refl)
  | inr ink ↦ (h, rw (h, ink) refl)
]

-- Whatever has a canonical DOI also passes the looser check of a request: no warning is given for it.
pub looks_like_doi-normalize_doi_str :
    (l : Lowercase) (raw : Text) {n : Text}
    → normalize_doi_str l raw ≡ some n
    → (looks_like_doi l raw ≡ true) × (validate_doi l (some raw) ≡ [])
unfolding normalize_doi_str checked_doi
looks_like_doi-normalize_doi_str l raw h =
    let stripped = strip_doi_prefix l raw in
    let (after, e1, h1) = >>=-eq-some (strip_prefix (codes "10.") stripped) _ h in
    let (parts, e2, h2) = >>=-eq-some (split_once 0x2F after) _ h1 in
    let ten = starts_with-strip_prefix (codes "10.") stripped e1 in
    let slash : contains_char 0x2F stripped ≡ true =
      subst (λ x. contains_char 0x2F x ≡ true) (sym (strip_prefix_sound (codes "10.") stripped e1))
        (contains_char-append 0x2F (codes "10.") after (split_once-contains 0x2F after e2)) in
    looks_silent l raw (unfold looks_like_doi in rw (ten, slash) refl)

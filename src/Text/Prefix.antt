-- ===== src/Text/Prefix.antt =====
-- The laws of `strip_prefix`, `starts_with` and equality of texts.
use paperbridge.Prelude.{[], ◌∷◌, ◌++◌, true, ◌≡◌, refl, arith, some, Bool-cases, ap, inl, inr}
use paperbridge.Text.{Text, strip_prefix, eq_text, contains, starts_with}

pub strip_prefix-append : (p s : Text) → strip_prefix p (p ++ s) ≡ some s
strip_prefix-append [] s = refl
strip_prefix-append (c ∷ p) s = ground (arith, strip_prefix-append p s)

pub strip_prefix_sound : (p s : Text) {r : Text} → strip_prefix p s ≡ some r → s ≡ p ++ r
strip_prefix_sound [] s h = ground arith
strip_prefix_sound (c ∷ p) [] h = cc
strip_prefix_sound (c ∷ p) (d ∷ s) {r} h = ground (arith, strip_prefix_sound p s {r = r})

pub eq_text_refl : (s : Text) → eq_text s s ≡ true
eq_text_refl [] = refl
eq_text_refl (c ∷ s) = ground (arith, eq_text_refl s)

pub eq_text_sound : (s t : Text) → eq_text s t ≡ true → s ≡ t
eq_text_sound [] [] h = refl
eq_text_sound [] (d ∷ t) h = cc
eq_text_sound (c ∷ s) [] h = cc
eq_text_sound (c ∷ s) (d ∷ t) h = ground (arith, eq_text_sound s t)

pub starts_with_sound : (p s : Text) → starts_with p s ≡ true → (rest : Text) × (s ≡ p ++ rest)
starts_with_sound [] s h = (s, refl)
starts_with_sound (c ∷ p) [] h = absurd (cc)
starts_with_sound (c ∷ p) (d ∷ s) h =
    let (rest, e) = starts_with_sound p s (ground arith) in (rest, ground arith)

pub starts_with-append : (p s : Text) → starts_with p (p ++ s) ≡ true
starts_with-append [] s = refl
starts_with-append (c ∷ p) s = ground (arith, starts_with-append p s)

-- `contains` finds the parts of a text.
pub contains_sound :
    (p s : Text)
    → contains p s ≡ true
    → (before : Text) × (after : Text) × (s ≡ before ++ (p ++ after))
contains_sound p [] h = let (rest, e) = starts_with_sound p [] h in ([], rest, e)
contains_sound p (c ∷ s) h = elim (Bool-cases (starts_with p (c ∷ s))) [
  | inl front ↦ let (rest, e) = starts_with_sound p (c ∷ s) front in ([], rest, e)
  | inr later ↦
      let (before, after, e) = contains_sound p s (ground arith) in
      (c ∷ before, after, ap (λ t. c ∷ t) e)
]

pub contains_complete : (p before after : Text) → contains p (before ++ (p ++ after)) ≡ true
contains_complete p (c ∷ before) after =
    let later = contains_complete p before after in ground arith
contains_complete p [] after = front (p ++ after) (starts_with-append p after)
  where
    front : (s : Text) → starts_with p s ≡ true → contains p s ≡ true
    front [] h = h
    front (c ∷ s) h = ground arith

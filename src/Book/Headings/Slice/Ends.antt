-- ===== src/Book/Headings/Slice/Ends.antt =====
-- The headings of a chapter, and where one ends.
use paperbridge.Prelude.{
  List, All, Bool-cases, Option, [], ap, arith, false, inl, inr, none, refl, some, some-injective,
  true, ℕ, ◌++◌, ◌==◌, ◌↔◌, ◌∷◌, ◌≡◌, ◌≢◌, ◌⊎◌,
}
use paperbridge.Text.{Text, byte_len, codes, starts_with}
use paperbridge.Book.Headings.{CandidateHeading}
use paperbridge.Book.Headings.Slice.{end_of, is_number, is_wanted}

-- A heading of a chapter: it has the chapter's number in the sequence, or on its own line, and then
-- is no appendix.
abbrev pub IsOf : ℕ → CandidateHeading → Type 0
IsOf n c =
    (c.number ≡ n) ⊎ ((c.chapter_number ≡ some n) × (starts_with (codes "appendix") c.id ≡ false))

-- The headings behind one go on with its number up to `stop`, the offset of the first with another or
-- the end of the text.
abbrev pub EndsAt : Text → ℕ → List CandidateHeading → ℕ → Type 0
EndsAt content number later stop =
    (All (λ d. d.number ≡ number) later × (stop ≡ byte_len content))
    ⊎ ((same : List CandidateHeading) × (next : CandidateHeading) × (rest : List CandidateHeading)
        × (later ≡ same ++ next ∷ rest)
        × All (λ d. d.number ≡ number) same
        × (next.number ≢ number)
        × (stop ≡ next.byte_offset))

is_number_iff : (m : Option ℕ) (n : ℕ) → (is_number m n ≡ true) ↔ (m ≡ some n)
is_number_iff none n = ((λ h. absurd (cc)), (λ h. absurd (cc)))
is_number_iff (some m) n = (
  (λ h. let e : m ≡ n = ground arith in ap some e),
  (λ h. let e : m ≡ n = some-injective _ _ h in ground arith),
)

pub is_wanted_iff : (n : ℕ) (c : CandidateHeading) → (is_wanted n c ≡ true) ↔ IsOf n c
is_wanted_iff n c =
    let (sound, complete) = is_number_iff c.chapter_number n in
    (
      (λ h. elim (Bool-cases (c.number == n)) [
        | inl e ↦ inl (ground arith)
        | inr e ↦ inr (sound (ground arith), ground arith)
      ]),
      (λ h. elim h [
        | inl e ↦ ground arith
        | inr k ↦ (let x = complete k.0 in let y = k.1 in ground arith)
      ]),
    )

pub end_of-EndsAt :
    (content : Text) (number : ℕ) (later : List CandidateHeading)
    → EndsAt content number later (end_of number later (byte_len content))
unfolding end_of
end_of-EndsAt content number [] = inl (tt, refl)
end_of-EndsAt content number (c ∷ later) = elim (Bool-cases (c.number == number)) [
  | inr e ↦ rw e (inr ([], c, later, refl, tt, (λ k. ground arith), refl))
  | inl e ↦
      let equal : c.number ≡ number = ground arith in
      rw e (elim (end_of-EndsAt content number later) [
        | inl (all_same, stop) ↦ inl ((equal, all_same), stop)
        | inr (same, next, rest, split, all_same, differs, stop) ↦
            inr (c ∷ same, next, rest, ap (λ l. c ∷ l) split, (equal, all_same), differs, stop)
      ])
]

-- ===== src/Book/Headings/Toc/Once.antt =====
-- Each number of a table of contents once.
use paperbridge.Book.Headings.Collect.Places.{IsPlaced}
use paperbridge.Book.Headings.Collect.{collect_raw_candidate_headings}
use paperbridge.Book.Headings.Monotonic.Longest.{filter_monotonic_candidates-longest}
use paperbridge.Book.Headings.Monotonic.{filter_monotonic_candidates, headings_at}
use paperbridge.Text.{Text}
use paperbridge.Prelude.{
  All, All-get_elem?, All-of_append, Bool-cases, List, Option, Option-cases, [], false, get_elem?,
  inl, inr, length, ltb, map, none, refl, reverse, some, some-injective, subst, sym,
  take-append-drop, true, ℕ, ◌++◌, ◌||◌, ◌∙◌, ◌∷◌, ◌≡◌,
}
use paperbridge.Book.Headings.{CandidateHeading}
use paperbridge.Book.Headings.Toc.{
  BookToc, chapter_of, number_seen, partition_toc_and_body_candidates, restart, split_at,
  toc_candidates,
}
use paperbridge.Book.Headings.Toc.Order.{Strict}

abbrev Unseen : List ℕ → CandidateHeading → Type 0
Unseen seen c = number_seen c.number seen ≡ false

abbrev pub numbers : List CandidateHeading → List ℕ
numbers = map (λ c. c.number)

-- The number is one of those in front, or of the list's.
abbrev Kept : List ℕ → List CandidateHeading → CandidateHeading → Type 0
Kept seen out c = (number_seen c.number seen || number_seen c.number (numbers out)) ≡ true

headings_at-All {ℓ} :
    (P : CandidateHeading → Type ℓ) (cs : List CandidateHeading) (is : List ℕ)
    (out : List CandidateHeading)
    → All P cs
    → headings_at cs is ≡ some out
    → All P out
unfolding headings_at
headings_at-All P cs [] out h e = subst (All P) (some-injective _ _ e) tt
headings_at-All P cs (i ∷ is) out h e = elim (Option-cases (get_elem? cs i)) [
  | inl f ↦ (let x = rw f at e in absurd (cc))
  | inr (c, f) ↦ elim (Option-cases (headings_at cs is)) [
    | inl g ↦ (let x = rw (f, g) at e in absurd (cc))
    | inr (rest, g) ↦
        subst (All P) (some-injective _ _ (rw (f, g) at e))
          (All-get_elem? P cs i h f, headings_at-All P cs is rest h g)
  ]
]

filter-All {ℓ} :
    (P : CandidateHeading → Type ℓ) (cs out : List CandidateHeading)
    → All P cs
    → filter_monotonic_candidates cs ≡ some out
    → All P out
filter-All P cs out h e =
    let (is, out', found, at, _, _) = filter_monotonic_candidates-longest cs in
    subst (All P) (some-injective _ _ (sym found ∙ e)) (headings_at-All P cs (reverse is) out' h at)

partition-append :
    (raw : List CandidateHeading)
    → (partition_toc_and_body_candidates raw).0 ++ (partition_toc_and_body_candidates raw).1 ≡ raw
unfolding partition_toc_and_body_candidates
partition-append raw = elim (Bool-cases (ltb (length raw) 3)) [
  | inl e ↦ rw e refl
  | inr e ↦ rw e (split (restart [] 0 raw))
]
  where
    split : (at : Option ℕ) → (split_at raw at).0 ++ (split_at raw at).1 ≡ raw
    split none = refl
    split (some i) = take-append-drop i raw

pub body-All {ℓ} :
    (P : CandidateHeading → Type ℓ) (raw body : List CandidateHeading)
    → All P raw
    → filter_monotonic_candidates (partition_toc_and_body_candidates raw).1 ≡ some body
    → All P body
body-All P raw body h e =
    let (_, in_body) =
      All-of_append P (partition_toc_and_body_candidates raw).0
        (partition_toc_and_body_candidates raw).1 (subst (All P) (sym (partition-append raw)) h) in
    filter-All P (partition_toc_and_body_candidates raw).1 body in_body e

-- What `extract_toc_from_text` is to return: chapters that are headings on lines of the text, their
-- numbers ascending, with every number of the candidates that were chosen.
pub record IsToc (content : Text) (toc : BookToc) : Type 0 where
  pub chosen : List CandidateHeading
  pub is_chosen : toc_candidates (collect_raw_candidate_headings content) ≡ some chosen
  pub entries : List CandidateHeading
  pub chapters : toc.chapters ≡ map chapter_of entries
  pub counted : toc.total_chapters ≡ some (length entries)
  pub ascending : Strict entries
  pub placed : All (IsPlaced content) entries
  pub complete : All (λ c. number_seen c.number (numbers entries) ≡ true) chosen

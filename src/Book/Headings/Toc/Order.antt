-- ===== src/Book/Headings/Toc/Order.antt =====
-- The order of the candidates from which a table of contents is made.
use paperbridge.Prelude.{
  All, All-append, All-concat, All-imp, List, Option-cases, [], ap, arith, get_elem?, inl, inr,
  refl, reverse, some, some-injective, subst, sym, ℕ, ◌++◌, ◌<◌, ◌∙◌, ◌∷◌, ◌≡◌, ◌≤◌,
}
use paperbridge.Book.Headings.{CandidateHeading}
use paperbridge.Book.Headings.Monotonic.{filter_monotonic_candidates, headings_at}
use paperbridge.Book.Headings.Monotonic.Longest.{
  IsRun, filter_monotonic_candidates-longest, number_of_heading,
}

abbrev pub AtMost : ℕ → List CandidateHeading → Type 0
AtMost n = All (λ c. c.number ≤ n)

-- The numbers do not descend.
abbrev pub Ordered : List CandidateHeading → Type 0
Ordered [] = Unit
Ordered (c ∷ cs) = All (λ d. c.number ≤ d.number) cs × Ordered cs

-- The numbers ascend.
abbrev pub Strict : List CandidateHeading → Type 0
Strict [] = Unit
Strict (c ∷ cs) = All (λ d. c.number < d.number) cs × Strict cs

pub Ordered-append :
    (n : ℕ) (xs ys : List CandidateHeading)
    → Ordered xs
    → AtMost n xs
    → Ordered ys
    → All (λ d. n ≤ d.number) ys
    → Ordered (xs ++ ys)
Ordered-append n [] ys h low k high = k
Ordered-append n (x ∷ xs) ys (least, h) (le, low) k high = (
  All-append (λ d. x.number ≤ d.number) xs ys least
      (All-imp (λ d. n ≤ d.number) (λ d. x.number ≤ d.number) (λ d e. omega arith) ys high),
  Ordered-append n xs ys h low k high,
)

headings_at-concat :
    (cs : List CandidateHeading) (is : List ℕ) (i : ℕ) (out : List CandidateHeading)
    → headings_at cs (is ++ i ∷ []) ≡ some out
    → (front : List CandidateHeading) × (c : CandidateHeading) × (headings_at cs is ≡ some front)
      × (get_elem? cs i ≡ some c)
      × (out ≡ front ++ c ∷ [])
unfolding headings_at
headings_at-concat cs [] i out h = elim (Option-cases (get_elem? cs i)) [
  | inl e ↦ (let x = rw e at h in cc)
  | inr (c, e) ↦ ([], c, refl, e, sym (some-injective _ _ (rw e at h)))
]
headings_at-concat cs (j ∷ js) i out h = elim (Option-cases (get_elem? cs j)) [
  | inl e ↦ (let x = rw e at h in cc)
  | inr (d, e) ↦ elim (Option-cases (headings_at cs (js ++ i ∷ []))) [
    | inl f ↦ (let x = rw (e, f) at h in cc)
    | inr (rest, f) ↦
        let (front, c, run, at, same) = headings_at-concat cs js i rest f in
        let split : out ≡ d ∷ rest = sym (some-injective _ _ (rw (e, f) at h)) in
        (d ∷ front, c, rw (e, run) refl, at, split ∙ ap (λ l. d ∷ l) same)
  ]
]

-- The headings of a run do not descend.
run-Ordered :
    (cs : List CandidateHeading) (i : ℕ) (js : List ℕ) (out : List CandidateHeading)
    → IsRun cs (i ∷ js)
    → headings_at cs (reverse (i ∷ js)) ≡ some out
    → Ordered out × AtMost (number_of_heading (get_elem? cs i)) out
unfolding headings_at
run-Ordered cs i [] out run h =
    let (front, c, found, at, same) = headings_at-concat cs [] i out h in
    let none_before : front ≡ [] = sym (some-injective _ _ found) in
    rw (same, none_before, at) ((tt, tt), (omega arith, tt))
run-Ordered cs i (j ∷ js) out (lt, before, le, run) h =
    let (front, c, found, at, same) = headings_at-concat cs (reverse (j ∷ js)) i out h in
    let (ordered, low) = run-Ordered cs j js front run found in
    let number : number_of_heading (get_elem? cs i) ≡ c.number = ap number_of_heading at in
    let low' =
      All-imp (λ d. d.number ≤ number_of_heading (get_elem? cs j)) (λ d. d.number ≤ c.number)
        (λ d e. omega arith) front low in
    rw (same, at)
      (
        Ordered-append c.number front (c ∷ []) ordered low' (tt, tt) (omega arith, tt),
        All-concat (λ d. d.number ≤ c.number) front c low' (omega arith),
      )

pub filter_monotonic_candidates-Ordered :
    (candidates out : List CandidateHeading)
    → filter_monotonic_candidates candidates ≡ some out
    → Ordered out
unfolding headings_at
filter_monotonic_candidates-Ordered candidates out h =
    let (is, out', found, at, run, _) = filter_monotonic_candidates-longest candidates in
    let same : out' ≡ out = some-injective _ _ (sym found ∙ h) in
    subst Ordered same (ordered is out' run at)
  where
    ordered :
        (is : List ℕ) (out' : List CandidateHeading)
        → IsRun candidates is
        → headings_at candidates (reverse is) ≡ some out'
        → Ordered out'
    ordered [] out' run at = subst Ordered (some-injective _ _ at) tt
    ordered (i ∷ js) out' run at = (run-Ordered candidates i js out' run at).0

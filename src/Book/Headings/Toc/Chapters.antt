-- ===== src/Book/Headings/Toc/Chapters.antt =====
-- The chapters of a table of contents: in the order of their numbers, each number once.
use paperbridge.Prelude.{
  All-imp, All-retain, All-retain_self, Bool, Bool-cases, List, [], append_assoc, arith,
  if◌then◌else◌, inl, inr, is_empty, leb, length, ltb, max, refl, retain, some, subst,
  take-append_left, true, ℕ, ◌&&◌, ◌++◌, ◌<◌, ◌∷◌, ◌≡◌, ◌≤◌,
}
use paperbridge.Book.Headings.{CandidateHeading}
use paperbridge.Book.Headings.Monotonic.Longest.{filter_monotonic_candidates-longest}
use paperbridge.Book.Headings.Toc.{
  closely_spaced, max_number, partition_toc_and_body_candidates, restart, split_at,
  strictly_increasing, toc_candidates,
}
use paperbridge.Book.Headings.Toc.Order.{
  AtMost, Ordered, Ordered-append, filter_monotonic_candidates-Ordered,
}

-- The front of a list whose neighbours ascend.
strictly_increasing-Ordered :
    (cs : List CandidateHeading) → strictly_increasing cs ≡ true → Ordered cs
strictly_increasing-Ordered [] h = tt
strictly_increasing-Ordered (c ∷ []) h = (tt, tt)
strictly_increasing-Ordered (c ∷ d ∷ ds) h =
    let (least, ordered) = strictly_increasing-Ordered (d ∷ ds) (ground arith) in
    let below : c.number < d.number = ground arith in
    (
      (
        omega arith,
        All-imp (λ e. d.number ≤ e.number) (λ e. c.number ≤ e.number) (λ e le. omega arith) ds
            least,
      ),
      (least, ordered),
    )

max_number-AtMost : (cs : List CandidateHeading) → AtMost (max_number cs) cs
max_number-AtMost [] = tt
max_number-AtMost (c ∷ cs) = (
  omega arith,
  All-imp (λ d. d.number ≤ max_number cs) (λ d. d.number ≤ max c.number (max_number cs))
      (λ d le. omega arith) cs (max_number-AtMost cs),
)

-- The restart is behind candidates that ascend.
restart-Ordered :
    (prior : List CandidateHeading) (max_seen : ℕ) (cs : List CandidateHeading)
    → Ordered (split_at (prior ++ cs) (restart prior max_seen cs)).0
unfolding restart
restart-Ordered prior max_seen [] = tt
restart-Ordered prior max_seen (c ∷ cs) =
    let next = if ltb max_seen c.number then c.number else max_seen in
    let later : Ordered (split_at (prior ++ c ∷ cs) (restart (prior ++ c ∷ []) next cs)).0 =
      subst (λ l. Ordered (split_at l (restart (prior ++ c ∷ []) next cs)).0)
        (append_assoc prior (c ∷ []) cs) (restart-Ordered (prior ++ c ∷ []) next cs) in
    elim (Bool-cases (
      ltb 0 max_seen
      && (ltb c.number max_seen && leb 2 (length prior))
      && (strictly_increasing prior && closely_spaced prior))) [
        | inl e ↦
            rw (e, take-append_left prior (c ∷ cs) (length prior) refl)
              (strictly_increasing-Ordered prior (ground arith))
        | inr e ↦ rw e later
      ]

pub toc-Ordered : (raw : List CandidateHeading) → Ordered (partition_toc_and_body_candidates raw).0
unfolding partition_toc_and_body_candidates
toc-Ordered raw = elim (Bool-cases (ltb (length raw) 3)) [
  | inl e ↦ rw e tt
  | inr e ↦ rw e (restart-Ordered [] 0 raw)
]

retain-Ordered :
    (p : CandidateHeading → Bool) (cs : List CandidateHeading) → Ordered cs → Ordered (retain p cs)
retain-Ordered p [] h = tt
retain-Ordered p (c ∷ cs) (least, ordered) = elim (Bool-cases (p c)) [
  | inl e ↦ rw e (All-retain (λ d. c.number ≤ d.number) p cs least, retain-Ordered p cs ordered)
  | inr e ↦ rw e (retain-Ordered p cs ordered)
]

pub toc_candidates-Ordered :
    (raw : List CandidateHeading)
    → (out : List CandidateHeading) × (toc_candidates raw ≡ some out) × Ordered out
unfolding toc_candidates
toc_candidates-Ordered raw =
    let toc = (partition_toc_and_body_candidates raw).0 in
    let (_, body, found, _, _, _) =
      filter_monotonic_candidates-longest (partition_toc_and_body_candidates raw).1 in
    let ordered = filter_monotonic_candidates-Ordered _ body found in
    let above : CandidateHeading → Bool = λ c. ltb (max_number toc) c.number in
    elim (Bool-cases (is_empty toc)) [
      | inl e ↦ (body, rw (found, e) refl, ordered)
      | inr e ↦ (
        toc ++ retain above body,
        rw (found, e) refl,
        Ordered-append (max_number toc) toc (retain above body) (toc-Ordered raw)
            (max_number-AtMost toc) (retain-Ordered above body ordered)
            (All-imp (λ c. above c ≡ true) (λ c. max_number toc ≤ c.number) (λ c h. ground arith)
              (retain above body) (All-retain_self above body)),
      )
    ]

-- ===== src/Index/Upsert/Forget.antt =====
-- What is left of the postings when a document is forgotten.
use paperbridge.Prelude.{
  All, Bool, Bool-cases, List, [], arith, inl, inr, is_empty, retain, ℕ, ◌<◌, ◌∷◌, ◌≢◌, All-retain,
}
use paperbridge.Text.{Text}
use paperbridge.Maps.{Fresh, NodupKeys}
use paperbridge.Maps.Sort.{IsIncreasing}
use paperbridge.Index.Data.{Posting, Postings}
use paperbridge.Index.Data.Validity.{AllLists, InRange, IsPostingList, by_doc}
use paperbridge.Index.Upsert.{forget_postings, is_other}

-- No posting of the document.
abbrev pub Absent : ℕ → List Posting → Type 0
Absent doc = All (λ p. p.doc ≢ doc)

retain-Absent : (doc : ℕ) (ps : List Posting) → Absent doc (retain (is_other doc) ps)
retain-Absent doc [] = tt
retain-Absent doc (p ∷ ps) = elim (Bool-cases (is_other doc p)) [
  | inl e ↦ rw e (ground arith, retain-Absent doc ps)
  | inr e ↦ rw e (retain-Absent doc ps)
]

retain-IsIncreasing :
    (test : Posting → Bool) (ps : List Posting)
    → IsIncreasing by_doc ps
    → IsIncreasing by_doc (retain test ps)
retain-IsIncreasing test [] h = tt
retain-IsIncreasing test (p ∷ ps) (h, hs) = elim (Bool-cases (test p)) [
  | inl e ↦ rw e (All-retain (λ q. p.doc < q.doc) test ps h, retain-IsIncreasing test ps hs)
  | inr e ↦ rw e (retain-IsIncreasing test ps hs)
]

forget_postings-Fresh :
    (doc : ℕ) (term : Text) (m : Postings) → Fresh term m → Fresh term (forget_postings doc m)
unfolding forget_postings
forget_postings-Fresh doc term [] h = tt
forget_postings-Fresh doc term ((t, ps) ∷ m) (ne, h) =
    elim (Bool-cases (is_empty (retain (is_other doc) ps))) [
      | inl e ↦ rw e (forget_postings-Fresh doc term m h)
      | inr e ↦ rw e (ne, forget_postings-Fresh doc term m h)
    ]

pub forget_postings-valid :
    (n_docs n_fields doc : ℕ) (m : Postings)
    → NodupKeys m
    → AllLists n_docs n_fields m
    → NodupKeys (forget_postings doc m)
      × All (λ t. IsPostingList n_docs n_fields t.1 × Absent doc t.1) (forget_postings doc m)
unfolding forget_postings
forget_postings-valid n_docs n_fields doc [] k h = (tt, tt)
forget_postings-valid n_docs n_fields doc ((t, ps) ∷ m) (fresh, k) ((full, sorted, ranged), h) =
    let (nodup, rest) = forget_postings-valid n_docs n_fields doc m k h in
    elim (Bool-cases (is_empty (retain (is_other doc) ps))) [
      | inl e ↦ rw e (nodup, rest)
      | inr e ↦ rw e (
        (forget_postings-Fresh doc t m fresh, nodup),
        (
          (
            (
              e,
              retain-IsIncreasing (is_other doc) ps sorted,
              All-retain (InRange n_docs n_fields) (is_other doc) ps ranged,
            ),
            retain-Absent doc ps,
          ),
          rest,
        ),
      )
    ]

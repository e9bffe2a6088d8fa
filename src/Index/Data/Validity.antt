-- ===== src/Index/Data/Validity.antt =====
-- What `validate` accepts.
use paperbridge.Prelude.{
  All, All-imp, Bool, List, [], all, arith, false, is_empty, length, refl, true, ℕ, ◌<◌, ◌^◌, ◌∷◌,
  ◌≡◌, ◌≤◌,
}
use paperbridge.Text.{Text}
use paperbridge.Maps.Sort.{IsIncreasing}
use paperbridge.Index.Params.{BuildOptions, Floats, field_count}
use paperbridge.Index.Data.{Index, Posting, Postings, mem_text, no_duplicates, windows_increase}

abbrev pub by_doc : Posting → ℕ
by_doc p = p.doc

-- A document's id is below their number, and so is each field's.
abbrev pub InRange : ℕ → ℕ → Posting → Type 0
InRange n_docs n_fields p = (p.doc < n_docs) × All (λ f. f.field < n_fields) p.fields

-- The postings of a term: not empty, in increasing order of documents, in range.
abbrev pub IsPostingList : ℕ → ℕ → List Posting → Type 0
IsPostingList n_docs n_fields ps =
    (is_empty ps ≡ false) × IsIncreasing by_doc ps × All (InRange n_docs n_fields) ps

abbrev pub AllLists : ℕ → ℕ → Postings → Type 0
AllLists n_docs n_fields = All (λ t. IsPostingList n_docs n_fields t.1)

abbrev pub NodupTexts : List Text → Type 0
NodupTexts [] = Unit
NodupTexts (x ∷ xs) = (mem_text x xs ≡ false) × NodupTexts xs

module _ {fl : Floats} where
  open fl use {is_finite, is_negative}

  abbrev pub FiniteOptions : BuildOptions fl → Type 0
  FiniteOptions o =
      (is_finite o.k1 ≡ true)
      × (is_negative o.k1 ≡ false)
      × All (λ f. (is_finite f.b ≡ true) × (is_finite f.weight ≡ true)) o.fields
      × (field_count o ≤ 256)

  -- The invariants that `search` relies on.
  pub record IsValid (index : Index fl) : Type 0 where
    pub options_finite : FiniteOptions index.options
    pub docs_bounded : length index.doc_ids < 2 ^ 32
    pub row_per_doc : length index.field_lens ≡ length index.doc_ids
    pub rows_wide : All (λ row. length row ≡ field_count index.options) index.field_lens
    pub averages_wide : length index.avg_field_len ≡ field_count index.options
    pub averages_finite :
        All (λ v. (is_finite v ≡ true) × (is_negative v ≡ false)) index.avg_field_len
    pub ids_nodup : NodupTexts index.doc_ids
    pub lists : AllLists (length index.doc_ids) (field_count index.options) index.postings

-- From the tests to the predicates.
pub all_sound {ℓ} :
    {A : Type ℓ} (p : A → Bool) (P : A → Type 0)
    → ((a : A) → p a ≡ true → P a)
    → (xs : List A) → all p xs ≡ true
    → All P xs
all_sound p P f [] h = tt
all_sound p P f (x ∷ xs) h = (f x (ground arith), all_sound p P f xs (ground arith))

pub all_complete {ℓ} :
    {A : Type ℓ} (p : A → Bool) (P : A → Type 0)
    → ((a : A) → P a → p a ≡ true)
    → (xs : List A) → All P xs
    → all p xs ≡ true
all_complete p P f [] h = refl
all_complete p P f (x ∷ xs) (h, hs) = ground (arith, f x h, all_complete p P f xs hs)

pub no_duplicates_sound : (xs : List Text) → no_duplicates xs ≡ true → NodupTexts xs
no_duplicates_sound [] h = tt
no_duplicates_sound (x ∷ xs) h = (ground arith, no_duplicates_sound xs (ground arith))

pub no_duplicates_complete : (xs : List Text) → NodupTexts xs → no_duplicates xs ≡ true
no_duplicates_complete [] h = refl
no_duplicates_complete (x ∷ xs) (h, hs) = ground (arith, no_duplicates_complete xs hs)

pub windows_sound : (ps : List Posting) → windows_increase ps ≡ true → IsIncreasing by_doc ps
windows_sound [] h = tt
windows_sound (p ∷ []) h = (tt, tt)
windows_sound (p ∷ q ∷ ps) h =
    let less : p.doc < q.doc = ground arith in
    let (above, rest) = windows_sound (q ∷ ps) (ground arith) in
    (
      (less, All-imp (λ r. q.doc < r.doc) (λ r. p.doc < r.doc) (λ r k. omega arith) ps above),
      (above, rest),
    )

pub windows_complete : (ps : List Posting) → IsIncreasing by_doc ps → windows_increase ps ≡ true
windows_complete [] h = refl
windows_complete (p ∷ []) h = refl
windows_complete (p ∷ q ∷ ps) ((less, _), rest) = ground (arith, windows_complete (q ∷ ps) rest)

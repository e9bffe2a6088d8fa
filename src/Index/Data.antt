-- ===== src/Index/Data.antt =====
-- The index, its errors, and `validate` (crates/paperseed-index/src/index.rs, error.rs).
pub mod Validity
pub mod Check
use paperbridge.Prelude.{
  ◌&&◌, Bool, List, [], all, false, is_empty, leb, length, ltb, not, true, ℕ, ◌==◌, ◌^◌, ◌||◌, ◌∷◌,
  refl, ◌≡◌,
}
use paperbridge.Text.{Text, eq_text}
use paperbridge.Index.Params.{BuildOptions, Floats, field_count}

abbrev pub schema_version : ℕ
schema_version = 3

-- What a `Corrupt` message says.
pub data Reason : Type 0 where
  missing_header bad_magic invalid_k1 non_finite_field too_many_fields : Reason
  too_many_documents row_count row_width invalid_averages duplicate_id : Reason
  empty_postings unsorted_postings doc_out_of_range field_out_of_range : Reason

pub data IndexError : Type 0 where
  corrupt : Reason → IndexError
  schema_mismatch : ℕ → ℕ → IndexError  -- expected, actual
  postcard : IndexError

pub data IndexResult {ℓ} (A : Type ℓ) : Type ℓ where
  ok : A → IndexResult A
  err : IndexError → IndexResult A

infixl 5 ◌>>=◌ ◌>>◌
abbrev pub ◌>>=◌ {ℓ κ} :
    {A : Type ℓ} {B : Type κ} → IndexResult A → (A → IndexResult B) → IndexResult B
ok value >>= next = next value
err reason >>= next = err reason

abbrev pub ◌>>◌ {ℓ} : {B : Type ℓ} → IndexResult (Unit {0}) → IndexResult B → IndexResult B
first >> second = first >>= λ _. second

-- Inversion of a successful bind.
pub >>=-eq-ok {ℓ κ} :
    {A : Type ℓ} {B : Type κ} (first : IndexResult A) (next : A → IndexResult B) {result : B}
    → (first >>= next) ≡ ok result
    → (value : A) × (first ≡ ok value) × (next value ≡ ok result)
>>=-eq-ok (ok value) next success = (value, refl, success)
>>=-eq-ok (err reason) next success = cc

-- Goes on if the condition holds.
abbrev pub require : Bool → Reason → IndexResult (Unit {0})
require true reason = ok tt
require false reason = err (corrupt reason)

pub record FieldTerm : Type 0 where
  pub field : ℕ
  pub tf : ℕ

pub record Posting : Type 0 where
  pub doc : ℕ
  pub fields : List FieldTerm

abbrev pub Postings : Type 0
Postings = List (Text × List Posting)

module _ (fl : Floats) where
  pub record Index : Type 0 where
    pub version : ℕ
    pub options : BuildOptions fl
    pub doc_ids : List Text
    pub field_lens : List (List ℕ)
    pub avg_field_len : List fl.F32
    pub postings : Postings

-- `windows(2).all(|w| w[0].doc < w[1].doc)`.
abbrev pub windows_increase : List Posting → Bool
windows_increase [] = true
windows_increase (p ∷ []) = true
windows_increase (p ∷ q ∷ ps) = ltb p.doc q.doc && windows_increase (q ∷ ps)

pub check_posting : ℕ → ℕ → Posting → IndexResult (Unit {0})
check_posting n_docs n_fields posting = do
  require (ltb posting.doc n_docs) doc_out_of_range
  require (all (λ f. ltb f.field n_fields) posting.fields) field_out_of_range

pub check_posting_list : ℕ → ℕ → List Posting → IndexResult (Unit {0})
unfolding check_posting
check_posting_list n_docs n_fields [] = ok tt
check_posting_list n_docs n_fields (p ∷ ps) = do
  check_posting n_docs n_fields p
  check_posting_list n_docs n_fields ps

pub check_postings : ℕ → ℕ → Postings → IndexResult (Unit {0})
unfolding check_posting_list
check_postings n_docs n_fields [] = ok tt
check_postings n_docs n_fields ((term, postings) ∷ rest) = do
  require (not (is_empty postings)) empty_postings
  require (windows_increase postings) unsorted_postings
  check_posting_list n_docs n_fields postings
  check_postings n_docs n_fields rest

abbrev pub mem_text : Text → List Text → Bool
mem_text id [] = false
mem_text id (x ∷ xs) = eq_text x id || mem_text id xs

-- `iter().all(|id| seen.insert(id))`: no id comes again behind its place.
abbrev pub no_duplicates : List Text → Bool
no_duplicates [] = true
no_duplicates (x ∷ xs) = not (mem_text x xs) && no_duplicates xs

module _ {fl : Floats} where
  open fl use {is_finite, is_negative}

  unfoldable pub validate : Index fl → IndexResult (Unit {0})
  unfolding check_postings field_count
  validate index = do
    let n_docs = length index.doc_ids
    let n_fields = field_count index.options
    require (is_finite index.options.k1 && not (is_negative index.options.k1)) invalid_k1
    require (all (λ f. is_finite f.b && is_finite f.weight) index.options.fields) non_finite_field
    require (leb n_fields 256) too_many_fields
    require (ltb n_docs (2 ^ 32)) too_many_documents
    require (length index.field_lens == n_docs) row_count
    require (all (λ row. length row == n_fields) index.field_lens) row_width
    require
        (length index.avg_field_len == n_fields
          && all (λ v. is_finite v && not (is_negative v)) index.avg_field_len)
        invalid_averages
    require (no_duplicates index.doc_ids) duplicate_id
    check_postings n_docs n_fields index.postings

-- ===== src/Index/Upsert/Place.antt =====
-- The index with a place for the document that `upsert_document` writes next.
use paperbridge.Maps.{NodupKeys}
use paperbridge.Text.{Text}
use paperbridge.Index.Params.{Floats, field_count}
use paperbridge.Index.Builder.Invariant.{NodupTexts-concat}
use paperbridge.Index.Data.Validity.{FiniteOptions, InRange, IsPostingList, IsValid, NodupTexts}
use paperbridge.Index.Data.{Index, Postings, mem_text}
use paperbridge.Index.Upsert.Forget.{Absent, forget_postings-valid}
use paperbridge.Index.Upsert.{place_document}
use paperbridge.Index.Builder.{u32}
use paperbridge.Prelude.{
  List, All, All-concat, All-imp, [], arith, false, length, length-append, length-replicate, none,
  replicate, some, ℕ, ◌++◌, ◌+◌, ◌<◌, ◌^◌, ◌∷◌, ◌≡◌, ◌≢◌, ◌≤◌,
}

-- Below more documents.
AllLists-mono :
    (n n' k doc : ℕ)
    → n ≤ n'
    → (m : Postings) → All (λ t. IsPostingList n k t.1 × Absent doc t.1) m
    → All (λ t. IsPostingList n' k t.1 × Absent doc t.1) m
AllLists-mono n n' k doc le m h =
    All-imp (λ t. IsPostingList n k t.1 × Absent doc t.1)
      (λ t. IsPostingList n' k t.1 × Absent doc t.1)
      (λ t ((full, sorted, ranged), absent). (
        (
          full,
          sorted,
          All-imp (InRange n k) (InRange n' k) (λ p (lt, fields). (omega arith, fields)) t.1 ranged,
        ),
        absent,
      ))
      m h

-- An index with a place for a document: valid but for the averages, and without its postings.
pub record IsPlacedIndex {fl : Floats} (i : ℕ) (index : Index fl) : Type 0 where
  pub options_finite : FiniteOptions index.options
  pub docs_bounded : length index.doc_ids < 2 ^ 32
  pub row_per_doc : length index.field_lens ≡ length index.doc_ids
  pub rows_wide : All (λ row. length row ≡ field_count index.options) index.field_lens
  pub ids_nodup : NodupTexts index.doc_ids
  pub here : i < length index.doc_ids
  pub terms_once : NodupKeys index.postings
  pub lists :
      All
        (λ t. IsPostingList (length index.doc_ids) (field_count index.options) t.1 × Absent i t.1)
        index.postings

module _ {fl : Floats} where
  pub place_old :
      (index : Index fl) (doc_id : Text) (i : ℕ)
      → IsValid index
      → NodupKeys index.postings
      → i < length index.doc_ids
      → IsPlacedIndex i (place_document index doc_id (some i)).1
  unfolding place_document
  place_old index doc_id i h once lt =
      let bounded = h.docs_bounded in
      let small : u32 i ≡ i = omega arith in
      let (nodup, lists) =
        forget_postings-valid (length index.doc_ids) (field_count index.options) i index.postings
          once h.lists in
      record {
        options_finite = h.options_finite;
        docs_bounded = h.docs_bounded;
        row_per_doc = h.row_per_doc;
        rows_wide = h.rows_wide;
        ids_nodup = h.ids_nodup;
        here = lt;
        terms_once = rw small nodup;
        lists = rw small lists;
      }

  pub place_new :
      (index : Index fl) (doc_id : Text)
      → IsValid index
      → NodupKeys index.postings
      → mem_text doc_id index.doc_ids ≡ false
      → length index.doc_ids + 1 < 2 ^ 32
      → IsPlacedIndex (length index.doc_ids) (place_document index doc_id none).1
  unfolding place_document
  place_new index doc_id h once fresh room =
      let ids = length-append index.doc_ids (doc_id ∷ []) in
      let row : List ℕ = replicate (field_count index.options) 0 in
      let rows = length-append index.field_lens (row ∷ []) in
      let same = h.row_per_doc in
      let n_docs = length index.doc_ids in
      let n_fields = field_count index.options in
      record {
        options_finite = h.options_finite;
        docs_bounded = omega arith;
        row_per_doc = omega arith;
        rows_wide =
            All-concat (λ r. length r ≡ n_fields) index.field_lens row h.rows_wide
              (length-replicate n_fields 0);
        ids_nodup = NodupTexts-concat index.doc_ids doc_id fresh h.ids_nodup;
        here = omega arith;
        terms_once = once;
        lists =
            AllLists-mono n_docs (length (index.doc_ids ++ doc_id ∷ [])) n_fields n_docs
              (omega arith) index.postings
              (All-imp (λ t. IsPostingList n_docs n_fields t.1)
                (λ t. IsPostingList n_docs n_fields t.1 × Absent n_docs t.1)
                (λ t (full, sorted, ranged). (
                  (full, sorted, ranged),
                  All-imp (InRange n_docs n_fields) (λ p. p.doc ≢ n_docs)
                      (λ p (lt, _) e. absurd (omega arith)) t.1 ranged,
                ))
                index.postings h.lists);
      }

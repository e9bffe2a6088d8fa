-- ===== src/Index/Upsert/Valid.antt =====
-- `upsert_document` keeps what `validate` asks of an index.
use paperbridge.Index.Upsert.Place.{IsPlacedIndex, place_new, place_old}
use paperbridge.Index.Upsert.Averages.{recalculate-averages}
use paperbridge.Index.Data.Check.{validate_iff}
use paperbridge.Prelude.{
  All, All-imp, All-set, Bool-cases, List, Option-cases, [], arith, false, if◌then◌else◌, inl, inr,
  length, length-set, none, position, position-lt, position-none, refl, set, some, true, ℕ, ◌++◌,
  ◌+◌, ◌<◌, ◌^◌, ◌∙◌, ◌∷◌, ◌≡◌, foldl, try_set_total,
}
use paperbridge.Text.{Text, eq_text}
use paperbridge.Maps.{text_eq, nat_eq, NodupKeys}
use paperbridge.Index.Params.{Floats, field_count}
use paperbridge.Index.Tokenizer.{Unicode}
use paperbridge.Index.Data.{Index, mem_text, ok, validate}
use paperbridge.Index.Data.Validity.{IsPostingList, IsValid}
use paperbridge.Index.Builder.{u32, averages}
use paperbridge.Index.Builder.Build.{averages_valid}
use paperbridge.Index.Upsert.{place_document, upsert_document, write_document, push_posting}
use paperbridge.Index.Upsert.Forget.{Absent}
use paperbridge.Index.Upsert.Counts.{count_document-valid}
use paperbridge.Index.Upsert.Push.{IsOpen, push_each-valid}

-- A document is written without a panic.
record IsWritten {fl : Floats} (index index' : Index fl) : Type 0 where
  valid : IsValid index'
  terms_once : NodupKeys index'.postings
  same_ids : index'.doc_ids ≡ index.doc_ids

module _ (u : Unicode) {fl : Floats} where
  write_document-IsWritten :
      (fields : List (Text × Text)) (i : ℕ) (index : Index fl)
      → IsPlacedIndex i index
      → (index' : Index fl) × (write_document u fields (i, index) ≡ some index')
        × IsWritten index index'
  unfolding write_document
  write_document-IsWritten fields i index h =
      let (c, e, counts) = count_document-valid u index.options fields in
      let n_docs = length index.doc_ids in
      let n_fields = field_count index.options in
      let bounded = h.docs_bounded in
      let inside = h.here in
      let small : u32 i ≡ i = omega arith in
      let rows = set index.field_lens i c.lens in
      let per_doc = h.row_per_doc in
      let placed = try_set_total index.field_lens i c.lens (omega arith) in
      let (wide, finite) = averages_valid fl n_fields n_docs rows in
      let rows_wide =
        All-set (λ row. length row ≡ n_fields) index.field_lens i c.lens counts.lens_wide
          h.rows_wide in
      let (nodup, lists) =
        push_each-valid n_docs n_fields i h.here c.terms index.postings counts.terms_once
          counts.fields_below h.terms_once
          (All-imp (λ t. IsPostingList n_docs n_fields t.1 × Absent i t.1)
            (IsOpen n_docs n_fields i h.here c.terms) (λ t (valid, absent). (valid, inl absent))
            index.postings h.lists) in
      let next : Index fl = record index {
        field_lens = rows;
        postings = foldl (push_posting (u32 i)) index.postings c.terms;
      } in
      (
        record next { avg_field_len = averages fl n_fields n_docs rows },
        rw e (rw placed (recalculate-averages next rows_wide)),
        record {
          valid = record {
            options_finite = h.options_finite;
            docs_bounded = h.docs_bounded;
            row_per_doc = length-set index.field_lens i c.lens ∙ h.row_per_doc;
            rows_wide = rows_wide;
            averages_wide = wide;
            averages_finite = finite;
            ids_nodup = h.ids_nodup;
            lists = rw small lists;
          };
          terms_once = rw small nodup;
          same_ids = refl;
        },
      )

position-mem_text :
    (id : Text) (xs : List Text) → position (λ x. eq_text x id) xs ≡ none → mem_text id xs ≡ false
position-mem_text id xs h = absent xs (position-none (λ x. eq_text x id) xs h)
  where
    absent : (ys : List Text) → All (λ x. eq_text x id ≡ false) ys → mem_text id ys ≡ false
    absent [] h = refl
    absent (y ∷ ys) (e, h) = ground (arith, absent ys h)

mem_text-position :
    (id : Text) (xs : List Text) → mem_text id xs ≡ false → position (λ x. eq_text x id) xs ≡ none
mem_text-position id [] h = refl
mem_text-position id (x ∷ xs) h = ground (arith, mem_text-position id xs)

-- The ids after an upsert.
abbrev pub ids_with : List Text → Text → List Text
ids_with ids doc_id = if mem_text doc_id ids then ids else ids ++ doc_id ∷ []

module _ (u : Unicode) {fl : Floats} where
  -- Upserting a document into an index that passes `validate` does not panic and gives one that does,
  -- whether the document is new or known, if the number of documents stays below 2^32: and the
  -- document's id is there, behind the others if it is new. Each term is a key of the postings at most
  -- once, before and after.
  pub upsert_document-validate :
      (index : Index fl) (doc_id : Text) (fields : List (Text × Text))
      → validate index ≡ ok tt
      → NodupKeys index.postings
      → length index.doc_ids + 1 < 2 ^ 32
      → (after : Index fl) × (upsert_document u index doc_id fields ≡ some after)
        × (validate after ≡ ok tt)
        × NodupKeys after.postings
        × (after.doc_ids ≡ ids_with index.doc_ids doc_id)
  unfolding upsert_document place_document
  upsert_document-validate index doc_id fields passed once room =
      let valid = (validate_iff index).0 passed in
      elim (Option-cases (position (λ id. eq_text id doc_id) index.doc_ids)) [
        | inl e ↦
            let fresh = position-mem_text doc_id index.doc_ids e in
            let (after, f, done) =
              write_document-IsWritten u fields (length index.doc_ids)
                (place_document index doc_id none).1
                (place_new index doc_id valid once fresh room) in
            (
              after,
              rw e f,
              (validate_iff after).1 done.valid,
              done.terms_once,
              rw fresh (done.same_ids),
            )
        | inr (i, e) ↦
            let (after, f, done) =
              write_document-IsWritten u fields i (place_document index doc_id (some i)).1 (
                place_old index doc_id i valid once
                  (position-lt (λ id. eq_text id doc_id) index.doc_ids i e)) in
            (
              after,
              rw e f,
              (validate_iff after).1 done.valid,
              done.terms_once,
              rw (known index.doc_ids i e) (done.same_ids),
            )
      ]
    where
      known :
          (ids : List Text) (i : ℕ)
          → position (λ id. eq_text id doc_id) ids ≡ some i
          → mem_text doc_id ids ≡ true
      known ids i e = elim (Bool-cases (mem_text doc_id ids)) [
        | inl h ↦ h
        | inr h ↦ (let x = mem_text-position doc_id ids h in absurd (cc))
      ]

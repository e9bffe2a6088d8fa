-- ===== src/Index/Builder/Build.antt =====
-- A built index passes `validate`.
use paperbridge.Index.Data.Check.{validate_iff}
use paperbridge.Index.Builder.Add.{add_document-IsBuilder, length-ids_after}
use paperbridge.Prelude.{
  All, All-replicate, List, Option, [], ap, arith, false, foldl_inv, is_empty, length,
  length-replicate, map, refl, replicate, some, suc, sym, true, ◌<◌, ◌>>=◌, ◌^◌, ◌∙◌, ◌∷◌, ◌≡◌, ◌≢◌,
  length-map, ℕ, Bool-cases, inl, inr, ◌+◌, ◌==◌, ◌≤◌,
}
use paperbridge.Text.{Text}
use paperbridge.Maps.{nat_eq, text_eq, Fresh, NodupKeys, lookup}
use paperbridge.Maps.Sort.{
  All-sort_by_key, DistinctKeys, insert_by-ne, sort_by_key, sort_by_key-IsIncreasing,
}
use paperbridge.Index.Params.{Floats, field_count, BuildOptions}
use paperbridge.Index.Tokenizer.{Unicode}
use paperbridge.Index.Data.{FieldTerm, ok, validate}
use paperbridge.Index.Data.Validity.{AllLists, InRange, IsValid, FiniteOptions}
use paperbridge.Index.Builder.{
  to_posting, to_postings, average, averages, build, add_row, Builder, ByDoc, ByField, TermDocs,
  add_document, new,
}
use paperbridge.Index.Builder.Terms.{DocBelow, FieldsBelow, IsCount}
use paperbridge.Index.Builder.Invariant.{IsBuilder, new-IsBuilder}

fields-InRange :
    (n_fields : ℕ) (m : ByField)
    → FieldsBelow n_fields m
    → All {A = FieldTerm} (λ f. f.field < n_fields) (map (λ p. record { field = p.0; tf = p.1 }) m)
fields-InRange n_fields [] h = tt
fields-InRange n_fields (p ∷ m) (q, h) = (q, fields-InRange n_fields m h)

module _ (n_docs n_fields : ℕ) where
  pub to_posting-InRange :
      (p : ℕ × ByField) → DocBelow n_docs n_fields p → InRange n_docs n_fields (to_posting p)
  unfolding to_posting
  to_posting-InRange p (below, fields) = (
    below,
    All-sort_by_key (λ f. f.field) (λ f. f.field < n_fields) _ (fields-InRange n_fields p.1 fields),
  )

  map-InRange :
      (m : ByDoc)
      → All (DocBelow n_docs n_fields) m
      → All (InRange n_docs n_fields) (map to_posting m)
  map-InRange [] h = tt
  map-InRange (p ∷ m) (q, h) = (to_posting-InRange p q, map-InRange m h)

pub to_posting-doc : (p : ℕ × ByField) → (to_posting p).doc ≡ p.0
unfolding to_posting
to_posting-doc p = refl

map-ne : (d : ℕ) (m : ByDoc) → Fresh d m → All (λ p. p.doc ≢ d) (map to_posting m)
map-ne d [] h = tt
map-ne d (p ∷ m) (q, h) = ((λ e. q (sym (to_posting-doc p) ∙ e)), map-ne d m h)

map-DistinctKeys : (m : ByDoc) → NodupKeys m → DistinctKeys (λ p. p.doc) (map to_posting m)
unfolding to_posting
map-DistinctKeys [] h = tt
map-DistinctKeys ((d, bf) ∷ m) (fresh, nodup) = (map-ne d m fresh, map-DistinctKeys m nodup)

sort_map-ne :
    (m : ByDoc)
    → is_empty m ≡ false
    → is_empty (sort_by_key (λ p. p.doc) (map to_posting m)) ≡ false
unfolding sort_by_key
sort_map-ne [] h = h
sort_map-ne (p ∷ m) h =
    insert_by-ne (λ q. q.doc) (to_posting p) (sort_by_key (λ q. q.doc) (map to_posting m))

lists_of_counts :
    (n_docs n_fields : ℕ) (m : TermDocs)
    → All (IsCount n_docs n_fields) m
    → AllLists n_docs n_fields (map to_postings m)
unfolding to_postings
lists_of_counts n_docs n_fields [] h = tt
lists_of_counts n_docs n_fields ((t, m) ∷ rest) ((full, nodup, below), h) = (
  (
    sort_map-ne m full,
    sort_by_key-IsIncreasing (λ p. p.doc) (map to_posting m) (map-DistinctKeys m nodup),
    All-sort_by_key (λ p. p.doc) (InRange n_docs n_fields) (map to_posting m)
        (map-InRange n_docs n_fields m below),
  ),
  lists_of_counts n_docs n_fields rest h,
)

pub length-add_row : (ts lens : List ℕ) → length (add_row ts lens) ≡ length ts
unfolding add_row
length-add_row [] lens = refl
length-add_row (t ∷ ts) [] = refl
length-add_row (t ∷ ts) (len ∷ lens) = ap suc (length-add_row ts lens)

add_row-u64 :
    (ts lens : List ℕ) → All (λ t. t < 2 ^ 64) ts → All (λ t. t < 2 ^ 64) (add_row ts lens)
unfolding add_row
add_row-u64 [] lens h = tt
add_row-u64 (t ∷ ts) [] h = h
add_row-u64 (t ∷ ts) (len ∷ lens) (p, h) = (omega arith, add_row-u64 ts lens h)

module _ (fl : Floats) where
  open fl use {is_finite, is_negative}

  average-finite :
      (n_docs total : ℕ)
      → total < 2 ^ 64
      → (is_finite (average fl n_docs total) ≡ true)
        × (is_negative (average fl n_docs total) ≡ false)
  unfolding average
  average-finite n_docs total h = elim (Bool-cases (n_docs == 0)) [
    | inl none_yet ↦ rw none_yet fl.zero_finite
    | inr some_docs ↦ rw some_docs (fl.quotient_finite total n_docs h (ground arith))
  ]

  map-average :
      (n_docs : ℕ) (totals : List ℕ)
      → All (λ t. t < 2 ^ 64) totals
      → All (λ v. (is_finite v ≡ true) × (is_negative v ≡ false)) (map (average fl n_docs) totals)
  map-average n_docs [] h = tt
  map-average n_docs (t ∷ ts) (p, h) = (average-finite n_docs t p, map-average n_docs ts h)

  -- The averages: one for each field, finite and not negative.
  pub averages_valid :
      (n_fields n_docs : ℕ) (rows : List (List ℕ))
      → (length (averages fl n_fields n_docs rows) ≡ n_fields)
        × All
            (λ v. (is_finite v ≡ true) × (is_negative v ≡ false))
            (averages fl n_fields n_docs rows)
  unfolding averages
  averages_valid n_fields n_docs rows =
      let (wide, bounded) =
        foldl_inv (λ ts. (length ts ≡ n_fields) × All (λ t. t < 2 ^ 64) ts) add_row
          (λ ts lens h. (length-add_row ts lens ∙ h.0, add_row-u64 ts lens h.1))
          (replicate n_fields 0) rows
          (length-replicate n_fields 0, All-replicate (λ t. t < 2 ^ 64) n_fields 0 (omega arith)) in
      (length-map _ _ ∙ wide, map-average n_docs _ bounded)

module _ (u : Unicode) {fl : Floats} where
  pub build-IsValid : (b : Builder fl) → IsBuilder b → length b.doc_ids < 2 ^ 32 → IsValid (build b)
  unfolding build
  build-IsValid b h few =
      let (wide, finite) =
        averages_valid fl (field_count b.options) (length b.doc_ids) b.field_lens in
      record {
        options_finite = h.options_finite;
        docs_bounded = few;
        row_per_doc = h.row_per_doc;
        rows_wide = h.rows_wide;
        averages_wide = wide;
        averages_finite = finite;
        ids_nodup = h.ids_nodup;
        lists =
            lists_of_counts (length b.doc_ids) (field_count b.options) b.term_docs
              h.term_docs_valid.1;
      }

  -- The documents of a corpus, one after the other.
  pub add_documents : Builder fl → List (Text × List (Text × Text)) → Option (Builder fl)
  add_documents b [] = some b
  add_documents b ((doc_id, fields) ∷ docs) = do
    next ← add_document u b doc_id fields
    add_documents next docs

module _ (u : Unicode) {fl : Floats} where
  add_documents-IsBuilder :
      (b : Builder fl) (docs : List (Text × List (Text × Text)))
      → IsBuilder b
      → length b.doc_ids + length docs < 2 ^ 32
      → (b' : Builder fl) × (add_documents u b docs ≡ some b')
        × IsBuilder b'
        × (length b'.doc_ids ≤ length b.doc_ids + length docs)
  unfolding add_documents
  add_documents-IsBuilder b [] h room = (b, refl, h, omega arith)
  add_documents-IsBuilder b ((doc_id, fields) ∷ docs) h room =
      let (next, e, valid, _, ids) = add_document-IsBuilder u b doc_id fields h (omega arith) in
      let grown = length-ids_after b.doc_ids doc_id (lookup doc_id b.doc_positions) in
      let few : length next.doc_ids ≤ length b.doc_ids + 1 =
        omega (arith, ap (λ l. length l) ids, grown) in
      let (last, e', valid', small) = add_documents-IsBuilder next docs valid (omega arith) in
      (last, rw e e', valid', omega arith)

  -- Whatever documents a corpus holds, below 2^32 of them: no call of `add_document` panics, and
  -- the index that is built from them passes `validate`, if the options are finite and name at
  -- most 256 fields.
  pub build-validate :
      (o : BuildOptions fl) (docs : List (Text × List (Text × Text)))
      → FiniteOptions o
      → length docs < 2 ^ 32
      → (b : Builder fl) × (add_documents u (new o) docs ≡ some b) × (validate (build b) ≡ ok tt)
  build-validate o docs finite few =
      let (b, e, valid, small) =
        add_documents-IsBuilder (new o) docs (new-IsBuilder o finite) (unfold new in omega arith) in
      (b, e, (validate_iff (build b)).1 (build-IsValid u b valid (unfold new in omega arith)))

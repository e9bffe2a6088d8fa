-- ===== src/Index/Upsert.antt =====
-- `Index::upsert_document` of crates/paperseed-index/src/index.rs: a document is added to an index in
-- use, or takes the place of the one with its id.
pub mod Forget
pub mod Push
pub mod Counts
pub mod Averages
pub mod Place
pub mod Valid
use paperbridge.Prelude.{
  Bool, List, Option, [], foldl, if◌then◌else◌, is_empty, length, none, not, position, replicate,
  retain, some, ℕ, ◌++◌, ◌==◌, ◌∷◌, map, try_foldl, try_set, ◌%◌, ◌+◌, ◌>>=◌, ◌^◌,
}
use paperbridge.Text.{Text, eq_text}
use paperbridge.Maps.{nat_eq, text_eq, upsert}
use paperbridge.Maps.Sort.{sort_by_key}
use paperbridge.Index.Params.{BuildOptions, Floats, field_count, field_id}
use paperbridge.Index.Tokenizer.{Unicode, tokenize}
use paperbridge.Index.Data.{Index, Posting, Postings, mem_text}
use paperbridge.Index.Builder.{ByField, count_field, to_posting, u32, average}

abbrev pub is_other : ℕ → Posting → Bool
is_other doc posting = not (posting.doc == doc)

-- `postings.retain(…)`: the document's postings go, and the terms without others.
unfoldable pub forget_postings : ℕ → Postings → Postings
forget_postings doc [] = []
forget_postings doc ((term, ps) ∷ rest) =
    let others = forget_postings doc rest in
    if is_empty (retain (is_other doc) ps)
    then others
    else (term, retain (is_other doc) ps) ∷ others

-- `term -> field_id -> tf`.
abbrev pub Terms : Type 0
Terms = List (Text × ByField)

abbrev pub count_term : ℕ → Terms → Text → Terms
count_term field terms token = upsert token [] (count_field field) terms

pub record DocCounts : Type 0 where
  pub lens : List ℕ
  pub terms : Terms

module _ (u : Unicode) where
  -- `none` is the panic of `lens[field]` out of range.
  unfoldable pub count_doc_text : DocCounts → Text → Option ℕ → Option DocCounts
  count_doc_text c text none = some c
  count_doc_text c text (some field) =
      let tokens = tokenize u text in
      do
        lens ← try_set c.lens field (u32 (length tokens))
        some (record { lens = lens; terms = foldl (count_term field) c.terms tokens })

-- The body of the loop over the terms.
unfoldable pub push_posting : ℕ → Postings → Text × ByField → Postings
push_posting doc postings (term, by_field) =
    upsert term [] (λ ps. sort_by_key (λ p. p.doc) (ps ++ to_posting (doc, by_field) ∷ [])) postings

-- The loop over the lengths of a document: `none` is the panic of `totals[field]` out of range.
unfoldable pub add_lens : List ℕ → List ℕ → Option (List ℕ)
add_lens totals [] = some totals
add_lens [] (len ∷ lens) = none
add_lens (total ∷ totals) (len ∷ lens) = do
  rest ← add_lens totals lens
  some ((total + len) % 2 ^ 64 ∷ rest)

module _ {fl : Floats} where
  abbrev pub contains_document : Index fl → Text → Bool
  contains_document index doc_id = mem_text doc_id index.doc_ids

  unfoldable pub recalculate_average_field_lengths : Index fl → Option (Index fl)
  unfolding add_lens
  recalculate_average_field_lengths index = do
    totals ← try_foldl add_lens (replicate (field_count index.options) 0) index.field_lens
    some (record index { avg_field_len = map (average fl (length index.doc_ids)) totals })

  -- The index with a place for the document, and that place.
  unfoldable pub place_document : Index fl → Text → Option ℕ → ℕ × Index fl
  unfolding forget_postings
  place_document index doc_id (some i) =
      (i, record index { postings = forget_postings (u32 i) index.postings })
  place_document index doc_id none = (
    length index.doc_ids,
    record index {
      doc_ids = index.doc_ids ++ doc_id ∷ [];
      field_lens = index.field_lens ++ replicate (field_count index.options) 0 ∷ [];
    },
  )

module _ (u : Unicode) {fl : Floats} where
  abbrev pub count_doc_field : BuildOptions fl → DocCounts → Text × Text → Option DocCounts
  count_doc_field options c (name, text) = count_doc_text u c text (field_id options name)

  abbrev pub count_document : BuildOptions fl → List (Text × Text) → Option DocCounts
  count_document options =
      try_foldl (count_doc_field options)
        (record { lens = replicate (field_count options) 0; terms = [] })

  -- The part behind the choice of the place; `none` is the panic of an index out of range.
  unfoldable pub write_document : List (Text × Text) → ℕ × Index fl → Option (Index fl)
  unfolding count_doc_text push_posting recalculate_average_field_lengths
  write_document fields (i, index) = do
    c ← count_document index.options fields
    rows ← try_set index.field_lens i c.lens
    recalculate_average_field_lengths (record index {
      field_lens = rows;
      postings = foldl (push_posting (u32 i)) index.postings c.terms;
    })

  unfoldable pub upsert_document : Index fl → Text → List (Text × Text) → Option (Index fl)
  unfolding place_document write_document
  upsert_document index doc_id fields =
      write_document fields
        (place_document index doc_id (position (λ id. eq_text id doc_id) index.doc_ids))

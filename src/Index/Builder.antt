-- ===== src/Index/Builder.antt =====
-- `IndexBuilder` of crates/paperseed-index/src/index.rs.
pub mod Terms
pub mod Invariant
pub mod Add
pub mod Build
use paperbridge.Prelude.{
  List, Option, [], foldl, if◌then◌else◌, is_empty, length, ltb, map, none, replicate, some, zero,
  ℕ, ◌%◌, ◌++◌, ◌+◌, ◌==◌, ◌>>=◌, ◌^◌, ◌∷◌, try_foldl, try_set,
}
use paperbridge.Text.{Text}
use paperbridge.Maps.{nat_eq, text_eq, lookup, remove, upsert}
use paperbridge.Maps.Sort.{sort_by_key}
use paperbridge.Index.Params.{BuildOptions, Floats, field_count, field_id}
use paperbridge.Index.Tokenizer.{Unicode, tokenize}
use paperbridge.Index.Data.{Index, Posting, schema_version}

-- `field_id -> tf`, and `doc_idx -> field_id -> tf`.
abbrev pub ByField : Type 0
ByField = List (ℕ × ℕ)

abbrev pub ByDoc : Type 0
ByDoc = List (ℕ × ByField)

abbrev pub TermDocs : Type 0
TermDocs = List (Text × ByDoc)

abbrev pub u32 : ℕ → ℕ
u32 n = n % 2 ^ 32

-- `*by_field.entry(fid).or_insert(0) += 1`, in `u32`.
abbrev pub count_field : ℕ → ByField → ByField
count_field fid = upsert fid 0 (λ tf. u32 (tf + 1))

abbrev pub count_doc : ℕ → ℕ → ByDoc → ByDoc
count_doc doc fid = upsert doc [] (count_field fid)

-- The body of the loop over the tokens.
pub count_token : ℕ → ℕ → TermDocs → Text → TermDocs
count_token doc fid term_docs token = upsert token [] (count_doc doc fid) term_docs

-- `term_docs.retain(…)` with `by_doc.remove(&existing)`.
pub forget_doc : ℕ → TermDocs → TermDocs
forget_doc existing [] = []
forget_doc existing ((term, by_doc) ∷ rest) =
    let others = forget_doc existing rest in
    if is_empty (remove existing by_doc) then others else (term, remove existing by_doc) ∷ others

pub record Counts : Type 0 where
  pub lens : List ℕ
  pub term_docs : TermDocs

module _ (u : Unicode) where
  -- `none` is the panic of `lens[fid]` out of range.
  pub count_text : ℕ → Counts → Text → Option ℕ → Option Counts
  unfolding count_token
  count_text doc c text none = some c
  count_text doc c text (some fid) =
      let tokens = tokenize u text in
      do
        lens ← try_set c.lens fid (u32 (length tokens))
        some (record { lens = lens; term_docs = foldl (count_token doc fid) c.term_docs tokens })

module _ (u : Unicode) {fl : Floats} where
  -- The body of the loop over the document's fields.
  pub add_field : BuildOptions fl → ℕ → Counts → Text × Text → Option Counts
  unfolding count_text
  add_field options doc c (name, text) = count_text u doc c text (field_id options name)

module _ (fl : Floats) where
  pub record Builder : Type 0 where
    pub options : BuildOptions fl
    pub doc_ids : List Text
    pub doc_positions : List (Text × ℕ)
    pub field_lens : List (List ℕ)
    pub term_docs : TermDocs

module _ {fl : Floats} where
  unfoldable pub new : BuildOptions fl → Builder fl
  new options = record {
    options = options;
    doc_ids = [];
    doc_positions = [];
    field_lens = [];
    term_docs = [];
  }

  -- The `match` on the position: the document's index, and the builder with room for it. `none` is
  -- the panic of `expect("doc count exceeds u32")`.
  pub locate : Builder fl → Text → Option ℕ → Option (ℕ × Builder fl)
  unfolding forget_doc
  locate b doc_id (some existing) =
      some (existing, record b { term_docs = forget_doc existing b.term_docs })
  locate b doc_id none =
      let doc_idx = length b.doc_ids in
      if ltb doc_idx (2 ^ 32)
      then some (
        doc_idx,
        record b {
          doc_positions = upsert doc_id doc_idx (λ _. doc_idx) b.doc_positions;
          doc_ids = b.doc_ids ++ doc_id ∷ [];
          field_lens = b.field_lens ++ [] ∷ [];
        },
      )
      else none

module _ (u : Unicode) {fl : Floats} where
  -- The part of `add_document` behind the `match`; `none` is the panic of an index out of range.
  pub fill : List (Text × Text) → ℕ × Builder fl → Option (Builder fl)
  unfolding add_field
  fill fields (doc_idx, b) = do
    c ←
        try_foldl (add_field u b.options doc_idx)
          (record { lens = replicate (field_count b.options) 0; term_docs = b.term_docs }) fields
    rows ← try_set b.field_lens doc_idx c.lens
    some (record b { field_lens = rows; term_docs = c.term_docs })

  unfoldable pub add_document : Builder fl → Text → List (Text × Text) → Option (Builder fl)
  unfolding locate fill
  add_document b doc_id fields = do
    located ← locate b doc_id (lookup doc_id b.doc_positions)
    fill fields located

-- `totals[fid] += len` in `u64`, for a row no longer than the totals.
unfoldable pub add_row : List ℕ → List ℕ → List ℕ
add_row [] lens = []
add_row (t ∷ ts) [] = t ∷ ts
add_row (t ∷ ts) (len ∷ lens) = (t + len) % 2 ^ 64 ∷ add_row ts lens

module _ (fl : Floats) where
  open fl use {F32, zero, quotient}

  unfoldable pub average : ℕ → ℕ → F32
  average n_docs total = if n_docs == 0 then zero else quotient total n_docs

  unfoldable pub averages : ℕ → ℕ → List (List ℕ) → List F32
  unfolding average add_row
  averages n_fields n_docs rows = map (average n_docs) (foldl add_row (replicate n_fields 0) rows)

-- A document's counts of a term, its fields in order.
pub to_posting : ℕ × ByField → Posting
to_posting (doc, by_field) = record {
  doc = doc;
  fields = sort_by_key (λ f. f.field) (map (λ p. record { field = p.0; tf = p.1 }) by_field);
}

pub to_postings : Text × ByDoc → Text × List Posting
unfolding to_posting
to_postings (term, by_doc) = (term, sort_by_key (λ p. p.doc) (map to_posting by_doc))

module _ {fl : Floats} where
  unfoldable pub build : Builder fl → Index fl
  unfolding averages to_postings
  build b = record {
    version = schema_version;
    options = b.options;
    doc_ids = b.doc_ids;
    field_lens = b.field_lens;
    avg_field_len = averages fl (field_count b.options) (length b.doc_ids) b.field_lens;
    postings = map to_postings b.term_docs;
  }

-- ===== src/Index/Builder/Add.antt =====
-- `add_document` keeps the builder's invariant.
use paperbridge.Prelude.{
  All, All-imp, All-set, All-set_last, List, Option, Option-cases, [], arith, false, inl, inr,
  length, length-append, length-set, lt→ltb, none, refl, set, some, subst, ◌++◌, ◌+◌, ◌<◌, ◌^◌, ◌∙◌,
  ◌∷◌, ◌≡◌, ◌≤◌, ℕ, try_set_total,
}
use paperbridge.Text.{Text}
use paperbridge.Maps.{nat_eq, text_eq, All-upsert_self, lookup, lookup-upsert-none, upsert}
use paperbridge.Index.Params.{Floats, field_count}
use paperbridge.Index.Tokenizer.{Unicode}
use paperbridge.Index.Data.{mem_text}
use paperbridge.Index.Data.Validity.{FiniteOptions, NodupTexts}
use paperbridge.Index.Builder.{forget_doc, fill, locate, add_document, Builder}
use paperbridge.Index.Builder.Terms.{IsTermDocs, IsTermDocs-mono, forget_doc-IsTermDocs}
use paperbridge.Index.Builder.Invariant.{
  IsBuilder, NodupTexts-concat, fields-IsCounts, mem_text-concat,
}

lookup-lt :
    (id : Text) (m : List (Text × ℕ)) (n i : ℕ)
    → All (λ p. p.1 < n) m
    → lookup id m ≡ some i
    → i < n
lookup-lt id [] n i h e = cc
lookup-lt id ((j, v) ∷ m) n i (p, h) e = ground (arith, lookup-lt id m n i h)

module _ {fl : Floats} where
  -- The builder between the two halves of `add_document`: the row of the document may still be
  -- empty, and is written next.
  record IsLocated (doc_idx : ℕ) (b : Builder fl) : Type 0 where
    options_finite : FiniteOptions b.options
    docs_bounded : length b.doc_ids ≤ 2 ^ 32
    below : doc_idx < length b.doc_ids
    row_per_doc : length b.field_lens ≡ length b.doc_ids
    rows_after :
        (row : List ℕ)
        → length row ≡ field_count b.options
        → All (λ r. length r ≡ field_count b.options) (set b.field_lens doc_idx row)
    positions_below : All (λ p. p.1 < length b.doc_ids) b.doc_positions
    positions_known : (id : Text) → lookup id b.doc_positions ≡ none → mem_text id b.doc_ids ≡ false
    ids_nodup : NodupTexts b.doc_ids
    term_docs_valid : IsTermDocs (length b.doc_ids) (field_count b.options) b.term_docs

  locate_known :
      (b : Builder fl) (doc_id : Text) (i : ℕ)
      → lookup doc_id b.doc_positions ≡ some i
      → IsBuilder b
      → IsLocated i (record b { term_docs = forget_doc i b.term_docs })
  locate_known b doc_id i e h = record {
    options_finite = h.options_finite;
    docs_bounded = h.docs_bounded;
    below = lookup-lt doc_id b.doc_positions (length b.doc_ids) i h.positions_below e;
    row_per_doc = h.row_per_doc;
    rows_after = λ row wide.
        All-set (λ r. length r ≡ field_count b.options) b.field_lens i row wide h.rows_wide;
    positions_below = h.positions_below;
    positions_known = h.positions_known;
    ids_nodup = h.ids_nodup;
    term_docs_valid =
        forget_doc-IsTermDocs (length b.doc_ids) (field_count b.options) i b.term_docs
          h.term_docs_valid;
  }

  -- A document that is new.
  added : Builder fl → Text → Builder fl
  added b doc_id = record b {
    doc_positions = upsert doc_id (length b.doc_ids) (λ _. length b.doc_ids) b.doc_positions;
    doc_ids = b.doc_ids ++ doc_id ∷ [];
    field_lens = b.field_lens ++ [] ∷ [];
  }

  rows_of_added :
      (b : Builder fl)
      → IsBuilder b
      → (row : List ℕ) → length row ≡ field_count b.options
      → All
          (λ r. length r ≡ field_count b.options)
          (set (b.field_lens ++ [] ∷ []) (length b.doc_ids) row)
  rows_of_added b h row wide =
      subst (λ n. All (λ r. length r ≡ field_count b.options) (set (b.field_lens ++ [] ∷ []) n row))
        h.row_per_doc
        (All-set_last (λ r. length r ≡ field_count b.options) b.field_lens [] row wide h.rows_wide)

  known_of_added :
      (b : Builder fl) (doc_id : Text)
      → IsBuilder b
      → (id : Text) → lookup id (added b doc_id).doc_positions ≡ none
      → mem_text id (b.doc_ids ++ doc_id ∷ []) ≡ false
  unfolding added
  known_of_added b doc_id h id e =
      let (other, old) =
        lookup-upsert-none id doc_id (length b.doc_ids) (λ _. length b.doc_ids) b.doc_positions e in
      mem_text-concat id doc_id b.doc_ids (h.positions_known id old) other

  locate_new :
      (b : Builder fl) (doc_id : Text)
      → length b.doc_ids < 2 ^ 32
      → lookup doc_id b.doc_positions ≡ none
      → IsBuilder b
      → IsLocated (length b.doc_ids) (added b doc_id)
  unfolding added
  locate_new b doc_id room e h =
      let n = length b.doc_ids in
      let more : length (b.doc_ids ++ doc_id ∷ []) ≡ n + 1 =
        length-append b.doc_ids (doc_id ∷ []) in
      record {
        options_finite = h.options_finite;
        docs_bounded = omega arith;
        below = omega arith;
        row_per_doc = omega (arith, length-append b.field_lens ([] ∷ []), h.row_per_doc);
        rows_after = rows_of_added b h;
        positions_below =
            All-upsert_self (λ p. p.1 < length (b.doc_ids ++ doc_id ∷ [])) doc_id n (λ _. n)
              (omega arith) (λ v k. omega arith) b.doc_positions
              (All-imp (λ p. p.1 < n) (λ p. p.1 < length (b.doc_ids ++ doc_id ∷ []))
                (λ p k. omega arith) b.doc_positions h.positions_below);
        positions_known = known_of_added b doc_id h;
        ids_nodup = NodupTexts-concat b.doc_ids doc_id (h.positions_known doc_id e) h.ids_nodup;
        term_docs_valid =
            IsTermDocs-mono n (field_count b.options) 0 (length (b.doc_ids ++ doc_id ∷ []))
              b.term_docs (omega arith) h.term_docs_valid;
      }

  -- A document is filled in without a panic.
  record IsFilled (b b' : Builder fl) : Type 0 where
    valid : IsBuilder b'
    same_options : b'.options ≡ b.options
    same_ids : b'.doc_ids ≡ b.doc_ids

  fill-IsFilled :
      (u : Unicode) (fields : List (Text × Text)) (doc_idx : ℕ) (b : Builder fl)
      → IsLocated doc_idx b
      → (b' : Builder fl) × (fill u fields (doc_idx, b) ≡ some b') × IsFilled b b'
  unfolding fill
  fill-IsFilled u fields doc_idx b h =
      let (c, e, counts) =
        fields-IsCounts u b.options (length b.doc_ids) doc_idx h.below b.term_docs fields
          h.term_docs_valid in
      let below = h.below in
      let rows = h.row_per_doc in
      let inside = try_set_total b.field_lens doc_idx c.lens (omega arith) in
      (
        record b { field_lens = set b.field_lens doc_idx c.lens; term_docs = c.term_docs },
        rw e (rw inside refl),
        record {
          valid = record {
            options_finite = h.options_finite;
            docs_bounded = h.docs_bounded;
            row_per_doc = length-set b.field_lens doc_idx _ ∙ h.row_per_doc;
            rows_wide = h.rows_after _ counts.lens_wide;
            positions_below = h.positions_below;
            positions_known = h.positions_known;
            ids_nodup = h.ids_nodup;
            term_docs_valid = counts.docs_valid;
          };
          same_options = refl;
          same_ids = refl;
        },
      )

-- The ids behind a document: a known id keeps its place, a new one comes last.
abbrev pub ids_after : List Text → Text → Option ℕ → List Text
ids_after ids id (some existing) = ids
ids_after ids id none = ids ++ id ∷ []

pub length-ids_after :
    (ids : List Text) (id : Text) (o : Option ℕ) → length (ids_after ids id o) ≤ length ids + 1
length-ids_after ids id none = omega (arith, length-append ids (id ∷ []))
length-ids_after ids id (some i) = omega arith

module _ (u : Unicode) {fl : Floats} where
  -- A builder with fewer than 2^32 documents takes any document without a panic, and keeps its
  -- invariant and its options; the ids stay as they are if the id is known, and else it comes last.
  pub add_document-IsBuilder :
      (b : Builder fl) (doc_id : Text) (fields : List (Text × Text))
      → IsBuilder b
      → length b.doc_ids < 2 ^ 32
      → (b' : Builder fl) × (add_document u b doc_id fields ≡ some b')
        × IsBuilder b'
        × (b'.options ≡ b.options)
        × (b'.doc_ids ≡ ids_after b.doc_ids doc_id (lookup doc_id b.doc_positions))
  unfolding add_document
  add_document-IsBuilder b doc_id fields h room =
      elim (Option-cases (lookup doc_id b.doc_positions)) [
        | inl e ↦
            let (b', f, filled) =
              fill-IsFilled u fields (length b.doc_ids) (added b doc_id)
                (locate_new b doc_id room e h) in
            (
              b',
              rw (e, locate, lt→ltb (length b.doc_ids) (2 ^ 32) room) (unfold added in f),
              filled.valid,
              unfold added in filled.same_options,
              rw e (unfold added in filled.same_ids),
            )
        | inr (i, e) ↦
            let (b', f, filled) = fill-IsFilled u fields i _ (locate_known b doc_id i e h) in
            (b', rw (e, locate) f, filled.valid, filled.same_options, rw e (filled.same_ids))
      ]

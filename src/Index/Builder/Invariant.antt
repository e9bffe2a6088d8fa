-- ===== src/Index/Builder/Invariant.antt =====
-- What holds of a builder between two calls of `add_document`.
use paperbridge.Prelude.{
  All, Bool-cases, List, Option-cases, [], arith, false, foldl, foldl_inv, inl, inr, length,
  length-replicate, length-set, none, refl, replicate, subst, sym, ℕ, ◌++◌, ◌<◌, ◌^◌, ◌∙◌, ◌∷◌, ◌≡◌,
  ◌≤◌, set, some, try_foldl, try_foldl_inv, try_set_total,
}
use paperbridge.Text.Prefix.{eq_text_sound, eq_text_refl}
use paperbridge.Text.{Text, eq_text}
use paperbridge.Maps.{nat_eq, text_eq, lookup}
use paperbridge.Index.Params.{field_id-lt, BuildOptions, Floats, field_count, field_id}
use paperbridge.Index.Tokenizer.{Unicode, tokenize}
use paperbridge.Index.Data.{mem_text}
use paperbridge.Index.Data.Validity.{FiniteOptions, NodupTexts}
use paperbridge.Index.Builder.{
  Builder, Counts, TermDocs, add_field, count_text, count_token, new, u32,
}
use paperbridge.Index.Builder.Terms.{IsTermDocs, count_token-IsTermDocs}

pub record IsBuilder {fl : Floats} (b : Builder fl) : Type 0 where
  pub options_finite : FiniteOptions b.options
  pub docs_bounded : length b.doc_ids ≤ 2 ^ 32
  pub row_per_doc : length b.field_lens ≡ length b.doc_ids
  pub rows_wide : All (λ row. length row ≡ field_count b.options) b.field_lens
  pub positions_below : All (λ p. p.1 < length b.doc_ids) b.doc_positions
  pub positions_known :
      (id : Text) → lookup id b.doc_positions ≡ none → mem_text id b.doc_ids ≡ false
  pub ids_nodup : NodupTexts b.doc_ids
  pub term_docs_valid : IsTermDocs (length b.doc_ids) (field_count b.options) b.term_docs

module _ {fl : Floats} where
  pub new-IsBuilder : (o : BuildOptions fl) → FiniteOptions o → IsBuilder (new o)
  unfolding new
  new-IsBuilder o h = record {
    options_finite = h;
    docs_bounded = omega arith;
    row_per_doc = refl;
    rows_wide = tt;
    positions_below = tt;
    positions_known = λ id e. refl;
    ids_nodup = tt;
    term_docs_valid = (tt, tt);
  }

-- The counts that the loop over the fields carries.
pub record IsCounts (n_docs n_fields : ℕ) (c : Counts) : Type 0 where
  pub lens_wide : length c.lens ≡ n_fields
  pub docs_valid : IsTermDocs n_docs n_fields c.term_docs

module _ (u : Unicode) {fl : Floats} (o : BuildOptions fl) (n_docs doc : ℕ)
    (below : doc < n_docs) where
  add_field-IsCounts :
      (c : Counts) (f : Text × Text)
      → IsCounts n_docs (field_count o) c
      → (c' : Counts) × (add_field u o doc c f ≡ some c') × IsCounts n_docs (field_count o) c'
  unfolding add_field
  add_field-IsCounts c (name, text) h = elim (Option-cases (field_id o name)) [
    | inl e ↦ (c, rw (e, count_text) refl, h)
    | inr (fid, e) ↦
        let fits = field_id-lt o name fid e in
        let tokens = tokenize u text in
        let wide = h.lens_wide in
        let inside = try_set_total c.lens fid (u32 (length tokens)) (omega arith) in
        (
          record {
            lens = set c.lens fid (u32 (length tokens));
            term_docs = foldl (count_token doc fid) c.term_docs tokens;
          },
          rw (e, count_text) (rw inside refl),
          record {
            lens_wide = length-set c.lens fid (u32 (length tokens)) ∙ h.lens_wide;
            docs_valid =
                foldl_inv (IsTermDocs n_docs (field_count o)) (count_token doc fid)
                  (count_token-IsTermDocs n_docs (field_count o) doc fid below fits) c.term_docs
                  tokens h.docs_valid;
          },
        )
  ]

  pub fields-IsCounts :
      (term_docs : TermDocs) (fields : List (Text × Text))
      → IsTermDocs n_docs (field_count o) term_docs
      → (c : Counts) × (try_foldl
            (add_field u o doc)
            (record { lens = replicate (field_count o) 0; term_docs = term_docs })
            fields
          ≡ some c)
        × IsCounts n_docs (field_count o) c
  fields-IsCounts term_docs fields h =
      try_foldl_inv (IsCounts n_docs (field_count o)) (add_field u o doc) add_field-IsCounts _
        fields (record { lens_wide = length-replicate (field_count o) 0; docs_valid = h })

pub mem_text-concat :
    (x id : Text) (xs : List Text)
    → mem_text x xs ≡ false
    → eq_text id x ≡ false
    → mem_text x (xs ++ id ∷ []) ≡ false
mem_text-concat x id [] h e = ground arith
mem_text-concat x id (y ∷ xs) h e = ground (arith, mem_text-concat x id xs)

eq_text_sym : (s t : Text) → eq_text s t ≡ false → eq_text t s ≡ false
eq_text_sym s t h = elim (Bool-cases (eq_text t s)) [
  | inr e ↦ e
  | inl e ↦ cc (subst (λ r. eq_text r t ≡ false) (sym (eq_text_sound t s e)) h, eq_text_refl t)
]

pub NodupTexts-concat :
    (xs : List Text) (id : Text)
    → mem_text id xs ≡ false
    → NodupTexts xs
    → NodupTexts (xs ++ id ∷ [])
NodupTexts-concat [] id h n = (refl, tt)
NodupTexts-concat (x ∷ xs) id h (fresh, n) = (
  mem_text-concat x id xs fresh (eq_text_sym x id (ground arith)),
  NodupTexts-concat xs id (ground arith) n,
)

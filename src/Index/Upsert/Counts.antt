-- ===== src/Index/Upsert/Counts.antt =====
-- The counts of a document that is upserted: a length for each field, and each term once.
use paperbridge.Prelude.{
  All, List, Option-cases, [], foldl_inv, inl, inr, length, length-replicate, length-set, replicate,
  ℕ, ◌+◌, ◌<◌, ◌∙◌, ◌≡◌, arith, foldl, refl, set, some, try_foldl_inv, try_set_total,
}
use paperbridge.Text.{Text}
use paperbridge.Maps.{text_eq, nat_eq, All-upsert_self, NodupKeys, NodupKeys-upsert}
use paperbridge.Index.Params.{BuildOptions, Floats, field_count, field_id, field_id-lt}
use paperbridge.Index.Tokenizer.{Unicode, tokenize}
use paperbridge.Index.Builder.{ByField, count_field, u32}
use paperbridge.Index.Builder.Terms.{FieldsBelow}
use paperbridge.Index.Upsert.{
  DocCounts, Terms, count_doc_field, count_doc_text, count_document, count_term,
}

-- The counts of a document.
pub record IsDocCounts (n_fields : ℕ) (c : DocCounts) : Type 0 where
  pub lens_wide : length c.lens ≡ n_fields
  pub terms_once : NodupKeys c.terms
  pub fields_below : All (λ t. FieldsBelow n_fields t.1) c.terms

count_term-valid :
    (n_fields field : ℕ)
    → field < n_fields
    → (terms : Terms) (token : Text) → NodupKeys terms × All (λ t. FieldsBelow n_fields t.1) terms
    → NodupKeys (count_term field terms token)
      × All (λ t. FieldsBelow n_fields t.1) (count_term field terms token)
count_term-valid n_fields field below terms token (nodup, h) =
    let counted : (m : ByField)
        → FieldsBelow n_fields m
        → FieldsBelow n_fields (count_field field m) =
      λ m k.
        All-upsert_self (λ p. p.0 < n_fields) field 0 (λ tf. u32 (tf + 1)) below (λ v j. below) m
          k in
    (
      NodupKeys-upsert token [] (count_field field) terms nodup,
      All-upsert_self (λ t. FieldsBelow n_fields t.1) token [] (count_field field) (counted [] tt)
          (λ v k. counted v k) terms h,
    )

module _ (u : Unicode) {fl : Floats} (o : BuildOptions fl) where
  count_doc_field-valid :
      (c : DocCounts) (f : Text × Text)
      → IsDocCounts (field_count o) c
      → (c' : DocCounts) × (count_doc_field u o c f ≡ some c') × IsDocCounts (field_count o) c'
  unfolding count_doc_text
  count_doc_field-valid c (name, text) h = elim (Option-cases (field_id o name)) [
    | inl e ↦ (c, rw e refl, h)
    | inr (field, e) ↦
        let tokens = tokenize u text in
        let fits = field_id-lt o name field e in
        let wide = h.lens_wide in
        let inside = try_set_total c.lens field (u32 (length tokens)) (omega arith) in
        let (nodup, below) =
          foldl_inv (λ terms. NodupKeys terms × All (λ t. FieldsBelow (field_count o) t.1) terms)
            (count_term field)
            (λ terms token k. count_term-valid (field_count o) field fits terms token k) c.terms
            tokens (h.terms_once, h.fields_below) in
        (
          record {
            lens = set c.lens field (u32 (length tokens));
            terms = foldl (count_term field) c.terms tokens;
          },
          rw e (rw inside refl),
          record {
            lens_wide = length-set c.lens field (u32 (length tokens)) ∙ h.lens_wide;
            terms_once = nodup;
            fields_below = below;
          },
        )
  ]

  pub count_document-valid :
      (fields : List (Text × Text))
      → (c : DocCounts) × (count_document u o fields ≡ some c) × IsDocCounts (field_count o) c
  count_document-valid fields =
      try_foldl_inv (IsDocCounts (field_count o)) (count_doc_field u o) count_doc_field-valid
        (record { lens = replicate (field_count o) 0; terms = [] }) fields
        (record {
          lens_wide = length-replicate (field_count o) 0;
          terms_once = tt;
          fields_below = tt;
        })

-- ===== src/Index/Builder/Terms.antt =====
-- The counts of the terms stay well-formed.
use paperbridge.Prelude.{
  All, [], arith, false, is_empty, ℕ, ◌<◌, ◌∷◌, ◌≡◌, All-imp, Bool-cases, inl, inr, ◌≤◌, ◌+◌,
}
use paperbridge.Text.{Text}
use paperbridge.Maps.{
  nat_eq, text_eq, NodupKeys, All-remove, All-upsert_self, Fresh, NodupKeys-remove,
  NodupKeys-upsert, remove, upsert-ne,
}
use paperbridge.Index.Builder.{
  ByDoc, ByField, TermDocs, count_field, count_doc, count_token, forget_doc, u32,
}

-- Field ids below the number of fields.
abbrev pub FieldsBelow : ℕ → ByField → Type 0
FieldsBelow n_fields = All (λ p. p.0 < n_fields)

abbrev pub DocBelow : ℕ → ℕ → ℕ × ByField → Type 0
DocBelow n_docs n_fields p = (p.0 < n_docs) × FieldsBelow n_fields p.1

-- A term's counts: for at least one document, once for each, in range.
abbrev pub IsCount : ℕ → ℕ → Text × ByDoc → Type 0
IsCount n_docs n_fields t =
    (is_empty t.1 ≡ false) × NodupKeys t.1 × All (DocBelow n_docs n_fields) t.1

abbrev pub IsTermDocs : ℕ → ℕ → TermDocs → Type 0
IsTermDocs n_docs n_fields m = NodupKeys m × All (IsCount n_docs n_fields) m

module _ (n_docs n_fields doc fid : ℕ) (doc_below : doc < n_docs) (fid_below : fid < n_fields) where
  count_field-FieldsBelow :
      (m : ByField) → FieldsBelow n_fields m → FieldsBelow n_fields (count_field fid m)
  count_field-FieldsBelow m h =
      All-upsert_self (λ p. p.0 < n_fields) fid 0 (λ tf. u32 (tf + 1)) fid_below (λ v k. fid_below)
        m h

  count_doc-DocBelow :
      (m : ByDoc)
      → All (DocBelow n_docs n_fields) m
      → All (DocBelow n_docs n_fields) (count_doc doc fid m)
  count_doc-DocBelow m h =
      All-upsert_self (DocBelow n_docs n_fields) doc [] (count_field fid)
        (doc_below, count_field-FieldsBelow [] tt) (λ v k. (k.0, count_field-FieldsBelow v k.1)) m h

  pub count_token-IsTermDocs :
      (m : TermDocs) (token : Text)
      → IsTermDocs n_docs n_fields m
      → IsTermDocs n_docs n_fields (count_token doc fid m token)
  unfolding count_token
  count_token-IsTermDocs m token (nodup, h) = (
    NodupKeys-upsert token [] (count_doc doc fid) m nodup,
    All-upsert_self (IsCount n_docs n_fields) token [] (count_doc doc fid)
        (upsert-ne doc [] (count_field fid) [], (tt, tt), count_doc-DocBelow [] tt)
        (λ v k. (
          upsert-ne doc [] (count_field fid) v,
          NodupKeys-upsert doc [] (count_field fid) v k.1,
          count_doc-DocBelow v k.2,
        ))
        m h,
  )

module _ (n_docs n_fields existing : ℕ) where
  forget_doc-Fresh :
      (term : Text) (m : TermDocs) → Fresh term m → Fresh term (forget_doc existing m)
  unfolding forget_doc
  forget_doc-Fresh term [] h = tt
  forget_doc-Fresh term ((t, by_doc) ∷ m) (ne, h) = ground (arith, forget_doc-Fresh term m h)

  -- Forgetting a document leaves no term without a document.
  pub forget_doc-IsTermDocs :
      (m : TermDocs)
      → IsTermDocs n_docs n_fields m
      → IsTermDocs n_docs n_fields (forget_doc existing m)
  unfolding forget_doc
  forget_doc-IsTermDocs [] h = (tt, tt)
  forget_doc-IsTermDocs ((t, by_doc) ∷ m) ((fresh, nodup), ((_, distinct, below), h)) =
      let (nodup', h') = forget_doc-IsTermDocs m (nodup, h) in
      elim (Bool-cases (is_empty (remove existing by_doc))) [
        | inl gone ↦ rw gone (nodup', h')
        | inr kept ↦ rw kept (
          (forget_doc-Fresh t m fresh, nodup'),
          (
            (
              kept,
              NodupKeys-remove existing by_doc distinct,
              All-remove (DocBelow n_docs n_fields) existing by_doc below,
            ),
            h',
          ),
        )
      ]

  -- The bounds may grow.
  pub IsTermDocs-mono :
      (more : ℕ) (m : TermDocs)
      → n_docs ≤ more
      → IsTermDocs n_docs n_fields m
      → IsTermDocs more n_fields m
  IsTermDocs-mono more m le (nodup, h) = (
    nodup,
    All-imp (IsCount n_docs n_fields) (IsCount more n_fields)
        (λ t k. (
          k.0,
          k.1,
          All-imp (DocBelow n_docs n_fields) (DocBelow more n_fields)
              (λ p q. (omega (arith, q.0), q.1)) t.1 k.2,
        ))
        m h,
  )

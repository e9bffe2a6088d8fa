-- ===== src/Index/Upsert/Push.antt =====
-- Adding the postings of a document that the lists do not have.
use paperbridge.Prelude.{
  All, All-concat, All-imp, List, [], false, foldl, inl, inr, is_empty, refl, ℕ, ◌++◌, ◌<◌, ◌∙◌,
  ◌∷◌, ◌≡◌, ◌≢◌, ◌⊎◌,
}
use paperbridge.Text.{Text}
use paperbridge.Maps.{text_eq, nat_eq, All-upsert, Fresh, NodupKeys, NodupKeys-upsert}
use paperbridge.Maps.Sort.{
  All-sort_by_key, DistinctKeys-concat, IsIncreasing, IsIncreasing-DistinctKeys, insert_by-ne,
  sort_by_key, sort_by_key-IsIncreasing,
}
use paperbridge.Index.Data.{Posting, Postings}
use paperbridge.Index.Data.Validity.{AllLists, InRange, IsPostingList, by_doc}
use paperbridge.Index.Builder.{ByField, to_posting}
use paperbridge.Index.Builder.Build.{to_posting-InRange, to_posting-doc}
use paperbridge.Index.Builder.Terms.{FieldsBelow}
use paperbridge.Index.Upsert.{Terms, push_posting}
use paperbridge.Index.Upsert.Forget.{Absent}

sort-ne : (p : Posting) (ps : List Posting) → is_empty (sort_by_key by_doc (ps ++ p ∷ [])) ≡ false
unfolding sort_by_key
sort-ne p [] = insert_by-ne by_doc p []
sort-ne p (q ∷ ps) = insert_by-ne by_doc q (sort_by_key by_doc (ps ++ p ∷ []))

module _ (n_docs n_fields doc : ℕ) (below : doc < n_docs) where
  push-IsPostingList :
      (ps : List Posting) (p : Posting)
      → p.doc ≡ doc
      → InRange n_docs n_fields p
      → IsIncreasing by_doc ps
      → All (InRange n_docs n_fields) ps
      → Absent doc ps
      → IsPostingList n_docs n_fields (sort_by_key by_doc (ps ++ p ∷ []))
  push-IsPostingList ps p same ranged sorted all_ranged absent = (
    sort-ne p ps,
    sort_by_key-IsIncreasing by_doc (ps ++ p ∷ []) (
        DistinctKeys-concat by_doc ps p
          (All-imp (λ q. q.doc ≢ doc) (λ q. q.doc ≢ p.doc) (λ q ne e. ne (e ∙ same)) ps absent)
          (IsIncreasing-DistinctKeys by_doc ps sorted)),
    All-sort_by_key by_doc (InRange n_docs n_fields) (ps ++ p ∷ [])
        (All-concat (InRange n_docs n_fields) ps p all_ranged ranged),
  )

  -- A list before or after the document's posting was added.
  abbrev pub IsOpen : Terms → Text × List Posting → Type 0
  IsOpen terms t = IsPostingList n_docs n_fields t.1 × (Absent doc t.1 ⊎ Fresh t.0 terms)

  abbrev pub FieldsOk : Text × ByField → Type 0
  FieldsOk t = FieldsBelow n_fields t.1

  push_posting-IsOpen :
      (term : Text) (by_field : ByField) (rest : Terms) (m : Postings)
      → FieldsOk (term, by_field)
      → Fresh term rest
      → NodupKeys m
      → All (IsOpen ((term, by_field) ∷ rest)) m
      → NodupKeys (push_posting doc m (term, by_field))
        × All (IsOpen rest) (push_posting doc m (term, by_field))
  unfolding push_posting
  push_posting-IsOpen term by_field rest m fits fresh nodup h =
      let new = to_posting (doc, by_field) in
      let push : List Posting → List Posting = λ ps. sort_by_key (λ p. p.doc) (ps ++ new ∷ []) in
      let ranged = to_posting-InRange n_docs n_fields (doc, by_field) (below, fits) in
      (
        NodupKeys-upsert term [] push m nodup,
        All-upsert (IsOpen ((term, by_field) ∷ rest)) (IsOpen rest) term [] push
            (push-IsPostingList [] new (to_posting-doc (doc, by_field)) ranged tt tt tt, inr fresh)
            (λ v ((_, sorted, all_ranged), open_). (
              elim open_ [
                | inl absent ↦
                    push-IsPostingList v new (to_posting-doc (doc, by_field)) ranged sorted
                      all_ranged absent
                | inr (ne, _) ↦ absurd (ne refl)
              ],
              inr fresh,
            ))
            (λ j v ne (valid, open_).
              (valid, elim open_ [ inl absent ↦ inl absent | inr (_, others) ↦ inr others ]))
            m nodup h,
      )

  pub push_each-valid :
      (terms : Terms) (m : Postings)
      → NodupKeys terms
      → All FieldsOk terms
      → NodupKeys m
      → All (IsOpen terms) m
      → NodupKeys (foldl (push_posting doc) m terms)
        × AllLists n_docs n_fields (foldl (push_posting doc) m terms)
  push_each-valid [] m _ _ nodup h =
      (nodup, All-imp (IsOpen []) (λ t. IsPostingList n_docs n_fields t.1) (λ t k. k.0) m h)
  push_each-valid ((term, by_field) ∷ rest) m (fresh, distinct) (fits, fit) nodup h =
      let (nodup', h') = push_posting-IsOpen term by_field rest m fits fresh nodup h in
      push_each-valid rest (push_posting doc m (term, by_field)) distinct fit nodup' h'

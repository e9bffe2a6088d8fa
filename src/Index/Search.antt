-- ===== src/Index/Search.antt =====
-- `Index::search` and `weighted_tf` of crates/paperseed-index/src/index.rs, on floating-point
-- operations that are a parameter.
pub mod Hits
use paperbridge.Prelude.{
  Bool, List, Option, [], false, foldl, get_elem?, if◌then◌else◌, is_empty, length, ltb, none, not,
  replicate, retain, set, some, take, true, zero, ℕ, ◌&&◌, ◌++◌, ◌==◌, ◌>>=◌, ◌||◌, ◌∷◌,
}
use paperbridge.Text.{Text}
use paperbridge.Maps.{text_eq, lookup}
use paperbridge.Index.Params.{FieldParams, Floats}
use paperbridge.Index.Tokenizer.{Unicode, tokenize}
use paperbridge.Index.Data.{FieldTerm, Index, Posting, mem_text}

-- The operations on `f32`: `x > 0.0`, `x <= 0.0`, `x == 0.0`, and `Greater` of `partial_cmp`.
pub record Scoring (fl : Floats) : Type 0 where
  pub of_nat : ℕ → fl.F32
  pub add : fl.F32 → fl.F32 → fl.F32
  pub sub : fl.F32 → fl.F32 → fl.F32
  pub mul : fl.F32 → fl.F32 → fl.F32
  pub div : fl.F32 → fl.F32 → fl.F32
  pub ln : fl.F32 → fl.F32
  pub half : fl.F32
  pub is_positive : fl.F32 → Bool
  pub is_not_positive : fl.F32 → Bool
  pub is_zero : fl.F32 → Bool
  pub is_greater : fl.F32 → fl.F32 → Bool

pub record ScoredHit (fl : Floats) : Type 0 where
  pub doc_id : Text
  pub score : fl.F32

-- The order of strings.
abbrev pub le_text : Text → Text → Bool
le_text [] t = true
le_text (c ∷ s) [] = false
le_text (c ∷ s) (d ∷ t) = let rest = le_text s t in ltb c d || (c == d && rest)

abbrev or_else {ℓ} : {A : Type ℓ} → A → Option A → A
or_else a none = a
or_else a (some b) = b

module _ {fl : Floats} (f : Scoring fl) where
  abbrev one : fl.F32
  one = f.of_nat 1

  abbrev doc_len : Index fl → ℕ → ℕ → ℕ
  doc_len index doc field =
      or_else 0 (get_elem? index.field_lens doc >>= λ row. get_elem? row field)

  -- `denom`.
  unfoldable pub field_norm : Index fl → ℕ → ℕ → fl.F32 → fl.F32
  field_norm index doc field b =
      let avg = or_else fl.zero (get_elem? index.avg_field_len field) in
      if f.is_positive avg
      then f.add (f.sub one b) (f.mul b (f.div (f.of_nat (doc_len index doc field)) avg))
      else one

  abbrev add_weighted : Index fl → ℕ → fl.F32 → FieldTerm → Option (FieldParams fl) → fl.F32
  add_weighted index doc tf_d ft none = tf_d
  add_weighted index doc tf_d ft (some params) =
      let norm = field_norm index doc ft.field params.b in
      if f.is_not_positive norm
      then tf_d
      else f.add tf_d (f.div (f.mul params.weight (f.of_nat ft.tf)) norm)

  unfoldable pub weighted_tf : Index fl → Posting → fl.F32
  unfolding field_norm
  weighted_tf index posting =
      foldl
        (λ tf_d ft.
          add_weighted index posting.doc tf_d ft (get_elem? index.options.fields ft.field))
        fl.zero posting.fields

  -- `accum` and `touched`.
  pub record Scores : Type 0 where
    pub accum : List fl.F32
    pub touched : List ℕ

  abbrev add_score : Scores → ℕ → fl.F32 → Option fl.F32 → Scores
  add_score s doc contribution none = s
  add_score s doc contribution (some slot) = record {
    accum = set s.accum doc (f.add slot contribution);
    touched = if f.is_zero slot then s.touched ++ doc ∷ [] else s.touched;
  }

  -- The body of the loop over the postings of a term.
  unfoldable pub score_posting : Index fl → fl.F32 → Scores → Posting → Scores
  unfolding weighted_tf
  score_posting index idf s posting =
      let tf_d = weighted_tf index posting in
      let contribution = f.mul idf (f.div tf_d (f.add index.options.k1 tf_d)) in
      if f.is_not_positive tf_d
      then s
      else add_score s posting.doc contribution (get_elem? s.accum posting.doc)

  -- `idf`, of a term that so many documents have.
  unfoldable pub idf_of : Index fl → ℕ → fl.F32
  idf_of index df =
      let n = f.of_nat (length index.doc_ids) in
      f.ln (f.add (f.div (f.add (f.sub n (f.of_nat df)) f.half) (f.add (f.of_nat df) f.half)) one)

  abbrev score_list : Index fl → Scores → Option (List Posting) → Scores
  score_list index s none = s
  score_list index s (some plist) =
      foldl (score_posting index (idf_of index (length plist))) s plist

  -- The loop over the terms, each of them once.
  unfoldable pub score_terms : Index fl → List Text → Scores → List Text → Scores
  unfolding score_posting idf_of
  score_terms index seen s [] = s
  score_terms index seen s (term ∷ terms) =
      let known = mem_text term seen in
      score_terms index (if known then seen else term ∷ seen)
        (if known then s else score_list index s (lookup term index.postings)) terms

  -- `accum[doc]` of each document touched: `none` is an index out of range.
  unfoldable pub rank_all : List fl.F32 → List ℕ → Option (List (ℕ × fl.F32))
  rank_all accum [] = some []
  rank_all accum (doc ∷ docs) = get_elem? accum doc >>= λ score.
      rank_all accum docs >>= λ ranked. some ((doc, score) ∷ ranked)

  -- Higher scores first, and equal ones in the order of the ids.
  abbrev comes_first : Index fl → ℕ × fl.F32 → ℕ × fl.F32 → Bool
  comes_first index a b =
      f.is_greater a.1 b.1
      || (not (f.is_greater b.1 a.1)
          && le_text (or_else [] (get_elem? index.doc_ids a.0))
              (or_else [] (get_elem? index.doc_ids b.0)))

  unfoldable pub insert_ranked : Index fl → ℕ × fl.F32 → List (ℕ × fl.F32) → List (ℕ × fl.F32)
  insert_ranked index a [] = a ∷ []
  insert_ranked index a (b ∷ ranked) =
      let rest = insert_ranked index a ranked in
      if comes_first index a b then a ∷ b ∷ ranked else b ∷ rest

  unfoldable pub sort_ranked : Index fl → List (ℕ × fl.F32) → List (ℕ × fl.F32)
  unfolding insert_ranked
  sort_ranked index [] = []
  sort_ranked index (a ∷ ranked) = insert_ranked index a (sort_ranked index ranked)

  unfoldable pub hits_of : Index fl → List (ℕ × fl.F32) → Option (List (ScoredHit fl))
  hits_of index [] = some []
  hits_of index ((doc, score) ∷ ranked) = get_elem? index.doc_ids doc >>= λ doc_id.
      hits_of index ranked >>= λ hits. some (record { doc_id = doc_id; score = score } ∷ hits)

  -- `none` is an index out of range. The selection of the best `top_k` and the sort give the first of
  -- the sorted documents.
  unfoldable pub search : Unicode → Index fl → Text → ℕ → Option (List (ScoredHit fl))
  unfolding score_terms rank_all sort_ranked hits_of
  search u index query top_k =
      let terms = tokenize u query in
      let scores =
        score_terms index []
          (record { accum = replicate (length index.doc_ids) fl.zero; touched = [] }) terms in
      if top_k == 0 || is_empty index.doc_ids
      then some []
      else if is_empty terms
      then some []
      else (rank_all scores.accum scores.touched >>= λ ranked.
          hits_of index (take top_k (sort_ranked index (retain (λ r. f.is_positive r.1) ranked))))

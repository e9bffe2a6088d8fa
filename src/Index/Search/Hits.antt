-- ===== src/Index/Search/Hits.antt =====
-- What a search finds.
use paperbridge.Index.Tokenizer.{Unicode, tokenize}
use paperbridge.Text.Prefix.{eq_text_refl}
use paperbridge.Prelude.{
  All, All-concat, Bool-cases, List, Option, Option-cases, [], arith, foldl_inv, get_elem?,
  get_elem?-lt, get_elem?_total, inl, inr, length, length-set, none, refl, some, some-injective,
  suc, take, true, zero, ℕ, ◌<◌, ◌∙◌, ◌∷◌, ◌≡◌, All-retain, All-retain_self, ap, is_empty,
  length-replicate, length-take, replicate, retain, ◌==◌, ◌||◌, ◌≤◌,
}
use paperbridge.Text.{Text}
use paperbridge.Maps.{text_eq, lookup}
use paperbridge.Index.Params.{Floats}
use paperbridge.Index.Data.{Index, Posting, mem_text}
use paperbridge.Index.Search.{
  Scores, Scoring, add_score, comes_first, idf_of, insert_ranked, rank_all, score_list,
  score_posting, score_terms, sort_ranked, weighted_tf, ScoredHit, hits_of, search,
}

module _ {fl : Floats} (f : Scoring fl) (n : ℕ) where
  -- One score for each document, and no other documents touched.
  record IsScores (s : Scores f) : Type 0 where
    as_many : length s.accum ≡ n
    in_range : All (λ doc. doc < n) s.touched

  score_posting-IsScores :
      (index : Index fl) (idf : fl.F32) (s : Scores f) (p : Posting)
      → IsScores s
      → IsScores (score_posting f index idf s p)
  unfolding score_posting
  score_posting-IsScores index idf s p h =
      elim (Bool-cases (f.is_not_positive (weighted_tf f index p))) [
        | inl e ↦ rw e h
        | inr e ↦ rw e (
            added (
              f.mul idf
                (f.div (weighted_tf f index p) (f.add index.options.k1 (weighted_tf f index p)))))
      ]
    where
      added :
          (contribution : fl.F32)
          → IsScores (add_score f s p.doc contribution (get_elem? s.accum p.doc))
      added contribution = elim (Option-cases (get_elem? s.accum p.doc)) [
        | inl e ↦ rw e h
        | inr (slot, e) ↦
            let inside = get_elem?-lt s.accum p.doc e in
            let size = h.as_many in
            let below : p.doc < n = omega arith in
            rw e (record {
              as_many = length-set s.accum p.doc (f.add slot contribution) ∙ h.as_many;
              in_range = elim (Bool-cases (f.is_zero slot)) [
                | inl z ↦ rw z (All-concat (λ doc. doc < n) s.touched p.doc h.in_range below)
                | inr z ↦ rw z h.in_range
              ];
            })
      ]

  score_terms-IsScores :
      (index : Index fl) (seen : List Text) (s : Scores f) (terms : List Text)
      → IsScores s
      → IsScores (score_terms f index seen s terms)
  unfolding score_terms
  score_terms-IsScores index seen s [] h = h
  score_terms-IsScores index seen s (term ∷ terms) h = elim (Bool-cases (mem_text term seen)) [
    | inl e ↦ rw e (score_terms-IsScores index seen s terms h)
    | inr e ↦ rw e (
        score_terms-IsScores index (term ∷ seen) (score_list f index s (lookup term index.postings))
          terms (scored (lookup term index.postings)))
  ]
    where
      scored : (plist : Option (List Posting)) → IsScores (score_list f index s plist)
      scored none = h
      scored (some plist) =
          foldl_inv IsScores (score_posting f index (idf_of f index (length plist)))
            (λ t p k. score_posting-IsScores index (idf_of f index (length plist)) t p k) s plist h

  abbrev Known : ℕ × fl.F32 → Type 0
  Known r = r.0 < n

  rank_all_total :
      (accum : List fl.F32) (docs : List ℕ)
      → length accum ≡ n
      → All (λ doc. doc < n) docs
      → (ranked : List (ℕ × fl.F32)) × (rank_all f accum docs ≡ some ranked) × All Known ranked
  unfolding rank_all
  rank_all_total accum [] size h = ([], refl, tt)
  rank_all_total accum (doc ∷ docs) size (lt, h) =
      let (score, e) = get_elem?_total accum doc (omega arith) in
      let (ranked, es, known) = rank_all_total accum docs size h in
      ((doc, score) ∷ ranked, rw (e, es) refl, (lt, known))

module _ {fl : Floats} (f : Scoring fl) (index : Index fl) (P : ℕ × fl.F32 → Type 0) where
  insert_ranked-All :
      (a : ℕ × fl.F32) (l : List (ℕ × fl.F32)) → P a → All P l → All P (insert_ranked f index a l)
  unfolding insert_ranked
  insert_ranked-All a [] p h = (p, tt)
  insert_ranked-All a (b ∷ l) p (q, h) = elim (Bool-cases (comes_first f index a b)) [
    | inl e ↦ rw e (p, (q, h))
    | inr e ↦ rw e (q, insert_ranked-All a l p h)
  ]

  sort_ranked-All : (l : List (ℕ × fl.F32)) → All P l → All P (sort_ranked f index l)
  unfolding sort_ranked
  sort_ranked-All [] h = tt
  sort_ranked-All (a ∷ l) (p, h) =
      insert_ranked-All a (sort_ranked f index l) p (sort_ranked-All l h)

  take-All : (k : ℕ) (l : List (ℕ × fl.F32)) → All P l → All P (take k l)
  take-All zero l h = tt
  take-All (suc k) [] h = tt
  take-All (suc k) (a ∷ l) (p, h) = (p, take-All k l h)

mem_text-get_elem? :
    (ids : List Text) (i : ℕ) (id : Text) → get_elem? ids i ≡ some id → mem_text id ids ≡ true
mem_text-get_elem? [] i id h = absurd (cc)
mem_text-get_elem? (x ∷ ids) zero id h =
    let same = eq_text_refl id in let e : x ≡ id = some-injective _ _ h in rw (e, same) refl
mem_text-get_elem? (x ∷ ids) (suc i) id h =
    (let later = mem_text-get_elem? ids i id h in ground arith)

module _ {fl : Floats} (f : Scoring fl) where
  -- A hit has a positive score and is a document of the index.
  abbrev pub IsFound : Index fl → ScoredHit fl → Type 0
  IsFound index h = (f.is_positive h.score ≡ true) × (mem_text h.doc_id index.doc_ids ≡ true)

  abbrev Rankable : Index fl → ℕ × fl.F32 → Type 0
  Rankable index r = (f.is_positive r.1 ≡ true) × (r.0 < length index.doc_ids)

  hits_of_total :
      (index : Index fl) (ranked : List (ℕ × fl.F32))
      → All (Rankable index) ranked
      → (hits : List (ScoredHit fl)) × (hits_of f index ranked ≡ some hits)
        × (length hits ≡ length ranked)
        × All (IsFound index) hits
  unfolding hits_of
  hits_of_total index [] h = ([], refl, refl, tt)
  hits_of_total index ((doc, score) ∷ ranked) ((pos, lt), h) =
      let (doc_id, e) = get_elem?_total index.doc_ids doc lt in
      let (hits, es, size, found) = hits_of_total index ranked h in
      (
        record { doc_id = doc_id; score = score } ∷ hits,
        rw (e, es) refl,
        ap suc size,
        ((pos, mem_text-get_elem? index.doc_ids doc doc_id e), found),
      )

  ranked-hits :
      (index : Index fl) (top_k : ℕ) (ranked : List (ℕ × fl.F32))
      → All (λ r. r.0 < length index.doc_ids) ranked
      → (hits : List (ScoredHit fl)) × (hits_of f index
            (take top_k (sort_ranked f index (retain (λ r. f.is_positive r.1) ranked)))
          ≡ some hits)
        × (length hits ≤ top_k)
        × All (IsFound index) hits
  ranked-hits index top_k ranked known =
      let kept = retain (λ r. f.is_positive r.1) ranked in
      let rankable : All (Rankable index) kept =
        both kept (All-retain_self (λ r. f.is_positive r.1) ranked)
          (All-retain (λ r. r.0 < length index.doc_ids) (λ r. f.is_positive r.1) ranked known) in
      let sorted = sort_ranked-All f index (Rankable index) kept rankable in
      let (hits, e, size, found) =
        hits_of_total index (take top_k (sort_ranked f index kept))
          (take-All f index (Rankable index) top_k (sort_ranked f index kept) sorted) in
      let few = length-take top_k (sort_ranked f index kept) in (hits, e, omega arith, found)
    where
      both :
          (l : List (ℕ × fl.F32))
          → All (λ r. f.is_positive r.1 ≡ true) l
          → All (λ r. r.0 < length index.doc_ids) l
          → All (Rankable index) l
      both [] h k = tt
      both (r ∷ l) (p, h) (q, k) = ((p, q), both l h k)

  -- A search of any index goes through with every document and score in range, and finds at most
  -- `top_k` hits: documents of the index, each with a positive score.
  pub search-IsFound :
      (u : Unicode) (index : Index fl) (query : Text) (top_k : ℕ)
      → (hits : List (ScoredHit fl)) × (search f u index query top_k ≡ some hits)
        × (length hits ≤ top_k)
        × All (IsFound index) hits
  unfolding search
  search-IsFound u index query top_k =
      let n = length index.doc_ids in
      let start : Scores f = record { accum = replicate n fl.zero; touched = [] } in
      let scores = score_terms f index [] start (tokenize u query) in
      let whole =
        score_terms-IsScores f n index [] start (tokenize u query)
          (record { as_many = length-replicate n fl.zero; in_range = tt }) in
      let (ranked, e, known) =
        rank_all_total f n scores.accum scores.touched whole.as_many whole.in_range in
      let (hits, found, few, all_found) = ranked-hits index top_k ranked known in
      elim (Bool-cases (top_k == 0 || is_empty index.doc_ids)) [
        | inl a ↦ ([], rw a refl, omega arith, tt)
        | inr a ↦ elim (Bool-cases (is_empty (tokenize u query))) [
          | inl b ↦ ([], rw (a, b) refl, omega arith, tt)
          | inr b ↦ (hits, rw (a, b, e) found, few, all_found)
        ]
      ]

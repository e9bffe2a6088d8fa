-- ===== src/Hits/Match/Kinds.antt =====
-- When a hit is an exact match of a query, and when the query is a phrase of its title.
use paperbridge.Prelude.{
  List, Bool, Bool-cases, Option, [], ap, arith, false, inl, inr, is_empty, leb, length, none, not,
  refl, some, some-injective, sym, true, ◌&&◌, ◌++◌, ◌>>=◌, ◌↔◌, ◌∷◌, ◌≡◌, ◌≢◌, ◌≤◌, ◌⊎◌,
}
use paperbridge.Text.{Text, contains, eq_text, split_whitespace}
use paperbridge.Text.Prefix.{eq_text_refl, contains_complete, contains_sound, eq_text_sound}
use paperbridge.Book.Isbn.{normalize_isbn}
use paperbridge.Identifiers.{normalize_doi_str}
use paperbridge.Identifiers.Arxiv.{normalize_arxiv_str}
use paperbridge.Hits.{
  Hit, MatchKind, Platform, exact_id, exact_title, normalize_text_key, phrase, weak,
}
use paperbridge.Hits.Match.{classify_match, prepare, same_id, same_ids, title_kind, token_kind}

-- Both are there, and they are equal.
abbrev pub Shares : Option Text → Option Text → Type 0
Shares a b = (id : Text) × (a ≡ some id) × (b ≡ some id)

-- The one stands in the other.
abbrev pub IsPart : Text → Text → Type 0
IsPart s t = (before : Text) × (after : Text) × (t ≡ before ++ (s ++ after))

same_id_iff : (a b : Option Text) → (same_id a b ≡ true) ↔ Shares a b
same_id_iff none b = ((λ h. absurd (cc)), (λ h. absurd (cc h.1)))
same_id_iff (some s) none = ((λ h. absurd (cc)), (λ h. absurd (cc h.2)))
same_id_iff (some s) (some t) = (
  (λ h. (s, refl, ap some (sym (eq_text_sound s t h)))),
  (λ h.
      let e : s ≡ h.0 = some-injective _ _ h.1 in
      let f : t ≡ h.0 = some-injective _ _ h.2 in rw (e, f) (eq_text_refl h.0)),
)

token_kind-inexact :
    (qs ts : List Text)
    → (token_kind qs ts ≢ exact_id) × (token_kind qs ts ≢ exact_title) × (token_kind qs ts ≢ phrase)
unfolding token_kind
token_kind-inexact qs ts = ground arith

-- What a comparison of titles yields, of a query that is not empty.
record IsTitleKind (q title : Text) (kind : MatchKind) : Type 0 where
  never_id : kind ≢ exact_id
  exact : (kind ≡ exact_title) ↔ (title ≡ q)
  inside : (kind ≡ phrase) ↔ ((title ≢ q) × IsPart q title × (2 ≤ length (split_whitespace q)))

full_title : (q title : Text) → is_empty q ≡ false → IsPart q title → is_empty title ≡ false
full_title q (c ∷ title) h part = refl
full_title [] [] h part = absurd (cc)
full_title (x ∷ q) [] h ([], after, e) = absurd (cc)
full_title (x ∷ q) [] h (b ∷ before, after, e) = absurd (cc)

contains_of_part : (q title : Text) → IsPart q title → contains q title ≡ true
contains_of_part q title (before, after, e) = rw e (contains_complete q before after)

-- The test of a phrase.
abbrev is_phrase : Text → Text → Bool
is_phrase q title =
    not (is_empty title) && (contains q title && leb 2 (length (split_whitespace q)))

is_phrase_iff :
    (q title : Text)
    → is_empty q ≡ false
    → (is_phrase q title ≡ true) ↔ (IsPart q title × (2 ≤ length (split_whitespace q)))
is_phrase_iff q title h = (
  (λ e. (contains_sound q title (ground arith), ground arith)),
  (λ k.
      let found = contains_of_part q title k.0 in
      let full = full_title q title h k.0 in let long = k.1 in ground arith),
)

title_kind-IsTitleKind :
    (q title : Text) → is_empty q ≡ false → IsTitleKind q title (title_kind q title)
unfolding title_kind
title_kind-IsTitleKind q title h = elim (Bool-cases (eq_text title q)) [
  | inl e ↦
      let same = eq_text_sound title q e in
      let full : is_empty title ≡ false = rw same h in
      rw (full, e)
        (record {
          never_id = λ k. cc;
          exact = ((λ k. same), (λ k. refl));
          inside = ((λ k. absurd (cc)), (λ k. absurd (k.0 same)));
        })
  | inr e ↦
      let differs : title ≢ q = λ k. (let x = rw k at e in let y = eq_text_refl q in absurd (cc)) in
      let (phrase_of, of_phrase) = is_phrase_iff q title h in
      let other : (not (is_empty title) && eq_text title q) ≡ false = ground arith in
      elim (Bool-cases (is_phrase q title)) [
        | inl f ↦
            rw (other, f)
              (record {
                never_id = λ k. cc;
                exact = ((λ k. absurd (cc)), (λ k. absurd (differs k)));
                inside =
                    ((λ k. let (part, long) = phrase_of f in (differs, part, long)), (λ k. refl));
              })
        | inr f ↦
            let (no_id, no_title, no_phrase) =
              token_kind-inexact (split_whitespace q) (split_whitespace title) in
            rw (other, f)
              (record {
                never_id = no_id;
                exact = ((λ k. absurd (no_title k)), (λ k. absurd (differs k)));
                inside = (
                  (λ k. absurd (no_phrase k)),
                  (λ k. let g = of_phrase (k.1, k.2) in absurd (cc)),
                );
              })
      ]
]

module _ (p : Platform) {F32 : Type 0} where
  -- The query is an id of the hit: read as a DOI, an arXiv id or an ISBN it is the hit's.
  abbrev pub NamesId : Text → Hit F32 → Type 0
  NamesId query hit =
      Shares (normalize_doi_str p.lowercase query) (hit.doi >>= normalize_doi_str p.lowercase)
      ⊎ (Shares (normalize_arxiv_str p.lowercase query)
            (hit.arxiv_id >>= normalize_arxiv_str p.lowercase)
          ⊎ Shares (normalize_isbn query) (hit.isbn >>= normalize_isbn))

  same_ids_iff :
      (query : Text) (hit : Hit F32) → (same_ids p (prepare p query) hit ≡ true) ↔ NamesId query hit
  same_ids_iff query hit =
      let doi = same_id_iff (prepare p query).doi (hit.doi >>= normalize_doi_str p.lowercase) in
      let arxiv_id =
        same_id_iff (prepare p query).arxiv_id (hit.arxiv_id >>= normalize_arxiv_str p.lowercase) in
      let isbn = same_id_iff (prepare p query).isbn (hit.isbn >>= normalize_isbn) in
      (
        (λ h.
            elim (Bool-cases
              (same_id (prepare p query).doi (hit.doi >>= normalize_doi_str p.lowercase))) [
                | inl e ↦ inl (doi.0 e)
                | inr e ↦
                    elim (Bool-cases (
                      same_id (prepare p query).arxiv_id
                        (hit.arxiv_id >>= normalize_arxiv_str p.lowercase))) [
                          | inl f ↦ inr (inl (arxiv_id.0 f))
                          | inr f ↦ inr (inr (isbn.0 (rw (e, f) at h)))
                        ]
              ]),
        (λ h. elim h [
          | inl k ↦ rw (doi.1 k) refl
          | inr k ↦ elim k [
            | inl l ↦ (let x = arxiv_id.1 l in ground arith)
            | inr l ↦ (let x = isbn.1 l in ground arith)
          ]
        ]),
      )

  -- A query with nothing left in its normal form is a weak match. Another is an exact match of a hit
  -- by id exactly if it is an id of the hit; by title exactly if it is none and normalizes to what
  -- the hit's title does; and it is a phrase of the hit exactly if it is neither, its normal form
  -- stands in the title's, and it has two words or more.
  pub classify_match-exact :
      (query : Text) (hit : Hit F32)
      → let kind = classify_match p (prepare p query) hit in
        let q = normalize_text_key p query in
        let title = normalize_text_key p hit.title in
        ((is_empty q ≡ true) × (kind ≡ weak))
        ⊎ ((is_empty q ≡ false)
            × ((kind ≡ exact_id) ↔ NamesId query hit)
            × ((kind ≡ exact_title) ↔ ((¬ NamesId query hit) × (title ≡ q)))
            × ((kind ≡ phrase) ↔ (
                (¬ NamesId query hit)
                × (title ≢ q)
                × IsPart q title
                × (2 ≤ length (split_whitespace q)))))
  unfolding classify_match
  classify_match-exact query hit =
      let q = normalize_text_key p query in
      let title = normalize_text_key p hit.title in
      let (names, of_names) = same_ids_iff query hit in
      elim (Bool-cases (is_empty q)) [
        | inl e ↦ inl (e, rw e refl)
        | inr e ↦ elim (Bool-cases (same_ids p (prepare p query) hit)) [
          | inl f ↦
              rw (e, f)
                (inr (
                  refl,
                  ((λ k. names f), (λ k. refl)),
                  ((λ k. absurd (cc)), (λ k. absurd (k.0 (names f)))),
                  ((λ k. absurd (cc)), (λ k. absurd (k.0 (names f)))),
                ))
          | inr f ↦
              let nameless : ¬ NamesId query hit = λ k. (let x = of_names k in absurd (cc)) in
              let kinds = title_kind-IsTitleKind q title e in
              rw (e, f)
                (inr (
                  refl,
                  ((λ k. absurd (kinds.never_id k)), (λ k. absurd (nameless k))),
                  ((λ k. (nameless, kinds.exact.0 k)), (λ k. kinds.exact.1 k.1)),
                  (
                    (λ k.
                        let (differs, part, long) = kinds.inside.0 k in
                        (nameless, differs, part, long)),
                    (λ k. kinds.inside.1 (k.1, k.2, k.3)),
                  ),
                ))
        ]
      ]

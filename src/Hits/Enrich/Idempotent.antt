-- ===== src/Hits/Enrich/Idempotent.antt =====
-- Enriching a hit twice.
use paperbridge.Prelude.{
  Bool, Bool-cases, Option, Option-cases, ap, arith, inl, inr, none, option_or, refl, some,
  some-injective, sym, true, ◌++◌, ◌>>=◌, ◌||◌, ◌∙◌, ◌≡◌,
}
use paperbridge.Text.{Text, codes, strip_prefix}
use paperbridge.Text.Prefix.{strip_prefix-append}
use paperbridge.Book.Isbn.{normalize_isbn}
use paperbridge.Identifiers.{normalize_doi_str}
use paperbridge.Identifiers.Arxiv.{normalize_arxiv_str}
use paperbridge.Hits.Enrich.Hash.{short_hash}
use paperbridge.Hits.{Hit, Platform, not_empty}
use paperbridge.Hits.Enrich.{
  cached_paper_id, digits_of, enrich_hit_identity, hash_in, merged_access, mint, minted_id,
  open_url, or_prefixed, unless_chapter, with_access,
}

abbrev HasNoHash : Text → Type 0
HasNoHash id = hash_in (some id) ≡ none

-- Ids with the other prefixes.
later_id :
    Option Text → Option Text → Option Text → Option Text → Option Text → Option Text → Text → Text
later_id arxiv_id doi isbn paper_id url pmid hash = or_prefixed (codes "arxiv:") arxiv_id (
    or_prefixed (codes "doi:") doi (
      or_prefixed (codes "isbn:") isbn (
        or_prefixed (codes "paperseed:") paper_id (
          or_prefixed (codes "url:") url
            (or_prefixed (codes "pmid:") pmid (codes "title:" ++ hash))))))

later_id-HasNoHash :
    (arxiv_id doi isbn paper_id url pmid : Option Text) (hash : Text)
    → HasNoHash (later_id arxiv_id doi isbn paper_id url pmid hash)
unfolding later_id
later_id-HasNoHash (some a) doi isbn paper_id url pmid hash = refl
later_id-HasNoHash none (some d) isbn paper_id url pmid hash = refl
later_id-HasNoHash none none (some i) paper_id url pmid hash = refl
later_id-HasNoHash none none none (some c) url pmid hash = refl
later_id-HasNoHash none none none none (some u) pmid hash = refl
later_id-HasNoHash none none none none none (some m) hash = refl
later_id-HasNoHash none none none none none none hash = refl

hash_in-not_empty : (o : Option Text) (r : Text) → hash_in o ≡ some r → not_empty r ≡ true
hash_in-not_empty none r h = cc
hash_in-not_empty (some id) r h = elim (Option-cases (strip_prefix (codes "research:") id)) [
  | inl e ↦ (let x = rw e at h in cc)
  | inr (s, e) ↦
      (let x = rw e at h in
        elim (Bool-cases (not_empty s)) [
          | inl f ↦ (let y = rw f at x in rw (sym (some-injective _ _ y)) f)
          | inr f ↦ (let y = rw f at x in cc)
        ])
]

||-again : (a b : Bool) → ((a || b) || b) ≡ (a || b)
||-again a b = ground arith

option_or-again {ℓ} : {A : Type ℓ} (o d : Option A) → option_or (option_or o d) d ≡ option_or o d
option_or-again none none = refl
option_or-again none (some a) = refl
option_or-again (some a) d = refl

module _ (p : Platform) {F32 : Type 0} where
  minted_id-HasNoHash : (hit : Hit F32) → HasNoHash (minted_id p hit none)
  unfolding later_id
  minted_id-HasNoHash hit =
      later_id-HasNoHash (hit.arxiv_id >>= normalize_arxiv_str p.lowercase)
        (hit.doi >>= normalize_doi_str p.lowercase)
        (unless_chapter hit.work_type (hit.isbn >>= normalize_isbn)) (cached_paper_id hit.cache)
        (open_url p hit) (digits_of hit.pmid) (short_hash hit.title)

  -- The hash of the id is kept: no other id that is minted begins as a research id does.
  hash_in-minted :
      (hit : Hit F32) (id : Option Text)
      → hash_in (some (minted_id p hit (hash_in id))) ≡ hash_in id
  hash_in-minted hit id = elim (Option-cases (hash_in id)) [
    | inl e ↦ rw e (minted_id-HasNoHash hit)
    | inr (r, e) ↦
        rw e (rw (strip_prefix-append (codes "research:") r) (rw (hash_in-not_empty id r e) refl))
  ]

  hash_in-mint :
      (hit : Hit F32) (id : Option Text) → hash_in (mint p hit (hash_in id)).hit_id ≡ hash_in id
  unfolding mint
  hash_in-mint hit id = hash_in-minted hit id

  merged_access_idem :
      (hit : Hit F32) (h : Option Text) → merged_access p (mint p hit h) ≡ merged_access p hit
  unfolding mint
  merged_access_idem hit h = simp (||-again, option_or-again)

  mint_idem : (hit : Hit F32) (h : Option Text) → mint p (mint p hit h) h ≡ mint p hit h
  unfolding mint
  mint_idem hit h = ap (with_access p hit h) (merged_access_idem hit h)

  -- Enriching a hit twice is enriching it once: the second call changes nothing, in particular
  -- neither the id nor the calls it offers.
  pub enrich_hit_identity_idem :
      (hit : Hit F32)
      → enrich_hit_identity p (enrich_hit_identity p hit) ≡ enrich_hit_identity p hit
  unfolding enrich_hit_identity
  enrich_hit_identity_idem hit =
      let r = hash_in hit.hit_id in
      ap (mint p (mint p hit r)) (hash_in-mint hit hit.hit_id) ∙ mint_idem hit r

-- ===== src/Hits/Dedupe/Result.antt =====
-- What `dedupe` returns.
use paperbridge.Prelude.{
  All, All-concat, All-get_elem?, All-set, Bool, List, Option-cases, [], ap, arith, false,
  get_elem?, get_elem?-set_ne, get_elem?_total, inl, inr, length, length-append, length-map,
  length-set, map, none, position, position-lt, position-none, refl, set, some, some-injective,
  subst, suc, sym, zero, ℕ, ◌++◌, ◌+◌, ◌∙◌, ◌∷◌, ◌≡◌, ◌≤◌, ◌⊎◌,
}
use paperbridge.Hits.Dedupe.{Entry, Identity, budget, dedupe, entry, insert, insert_all}
use paperbridge.Hits.Dedupe.Recheck.{Keyed, Pairwise, recheck-IsSettled}

module _ {ℓ} {A : Type ℓ} where
  get_elem?-append_last :
      (xs : List A) (v : A) (i : ℕ) {x : A}
      → get_elem? (xs ++ v ∷ []) i ≡ some x
      → (get_elem? xs i ≡ some x) ⊎ ((i ≡ length xs) × (v ≡ x))
  get_elem?-append_last [] v zero h = inr (refl, some-injective _ _ h)
  get_elem?-append_last [] v (suc i) h = absurd (cc)
  get_elem?-append_last (y ∷ ys) v zero h = inl h
  get_elem?-append_last (y ∷ ys) v (suc i) h = elim (get_elem?-append_last ys v i h) [
    | inl e ↦ inl e
    | inr (e, same) ↦ inr (ap suc e, same)
  ]

  All-of_get {κ} :
      (P : A → Type κ) (xs : List A) → ((i : ℕ) (a : A) → get_elem? xs i ≡ some a → P a) → All P xs
  All-of_get P [] h = tt
  All-of_get P (x ∷ xs) h = (h 0 x refl, All-of_get P xs (λ i a e. h (suc i) a e))

  pub position-none_of :
      (p : A → Bool) (xs : List A) → All (λ x. p x ≡ false) xs → position p xs ≡ none
  position-none_of p [] h = refl
  position-none_of p (x ∷ xs) (h, hs) = rw (h, position-none_of p xs hs) refl

module _ {H K : Type 0} (w : Identity H K) where
  open w use {keys_of, compatible, merge}

  -- No two records have compatible keys.
  abbrev pub Distinct : List H → Type 0
  Distinct [] = Unit
  Distinct (x ∷ xs) = All (λ y. compatible (keys_of x) (keys_of y) ≡ false) xs × Distinct xs

  Pairwise-append :
      (out : List (Entry w)) (hit : H)
      → Pairwise w out
      → All (λ e. compatible e.1 (keys_of hit) ≡ false) out
      → Pairwise w (out ++ entry w hit ∷ [])
  Pairwise-append out hit apart new i j ne x y ex ey =
      elim (get_elem?-append_last out (entry w hit) i ex) [
        | inl ix ↦ elim (get_elem?-append_last out (entry w hit) j ey) [
          | inl jy ↦ apart i j ne x y ix jy
          | inr (_, last) ↦
              subst (λ e. compatible x.1 e.1 ≡ false) last
                (All-get_elem? (λ e. compatible e.1 (keys_of hit) ≡ false) out i new ix)
        ]
        | inr (here, first) ↦ elim (get_elem?-append_last out (entry w hit) j ey) [
          | inl jy ↦
              w.compatible_comm x.1 y.1
              ∙ subst (λ e. compatible y.1 e.1 ≡ false) first
                  (All-get_elem? (λ e. compatible e.1 (keys_of hit) ≡ false) out j new jy)
          | inr (there, _) ↦ absurd (ne (here ∙ sym there))
        ]
      ]

  record IsInserted (out after : List (Entry w)) : Type 0 where
    pairwise : Pairwise w after
    all_keyed : Keyed w after
    no_longer : length after ≤ length out + 1

  insert-IsInserted :
      (out : List (Entry w)) (hit : H)
      → Pairwise w out
      → Keyed w out
      → (after : List (Entry w)) × (insert w out hit ≡ some after) × IsInserted out after
  unfolding insert
  insert-IsInserted out hit apart keyed =
      let test : Entry w → Bool = λ e. compatible e.1 (keys_of hit) in
      elim (Option-cases (position test out)) [
        | inl e ↦ (
          out ++ entry w hit ∷ [],
          rw e refl,
          record {
            pairwise = Pairwise-append out hit apart (position-none test out e);
            all_keyed = All-concat (λ k. k.1 ≡ keys_of k.0) out (entry w hit) keyed refl;
            no_longer = omega (arith, length-append out (entry w hit ∷ []));
          },
        )
        | inr (index, e) ↦
            let within = position-lt test out index e in
            let (first, ef) = get_elem?_total out index within in
            let merged = set out index (entry w (merge first.0 hit)) in
            let size = length-set out index (entry w (merge first.0 hit)) in
            let (after, run, settled) =
              recheck-IsSettled w (budget w (length out) + length out + 1) merged index 0
                (omega arith) (rw size (omega arith))
                (λ i j ne ni nj x y ex ey.
                  apart i j ne x y (sym (get_elem?-set_ne out index i _ ni) ∙ ex)
                    (sym (get_elem?-set_ne out index j _ nj) ∙ ey))
                (λ j lt. absurd (omega arith))
                (All-set (λ k. k.1 ≡ keys_of k.0) out index _ refl keyed) in
            (
              after,
              rw (e, ef) run,
              record {
                pairwise = settled.pairwise;
                all_keyed = settled.all_keyed;
                no_longer = omega (arith, settled.no_longer);
              },
            )
      ]

  record IsAll (most : ℕ) (after : List (Entry w)) : Type 0 where
    pairwise : Pairwise w after
    all_keyed : Keyed w after
    no_longer : length after ≤ most

  insert_all-IsAll :
      (out : List (Entry w)) (hits : List H)
      → Pairwise w out
      → Keyed w out
      → (after : List (Entry w)) × (insert_all w out hits ≡ some after)
        × IsAll (length out + length hits) after
  unfolding insert_all
  insert_all-IsAll out [] apart keyed =
      (out, refl, record { pairwise = apart; all_keyed = keyed; no_longer = omega arith })
  insert_all-IsAll out (hit ∷ hits) apart keyed =
      let (next, e, one) = insert-IsInserted out hit apart keyed in
      let (after, run, rest) = insert_all-IsAll next hits one.pairwise one.all_keyed in
      (
        after,
        rw e run,
        record {
          pairwise = rest.pairwise;
          all_keyed = rest.all_keyed;
          no_longer = omega (arith, one.no_longer, rest.no_longer);
        },
      )

  Pairwise-Distinct :
      (out : List (Entry w)) → Pairwise w out → Keyed w out → Distinct (map (λ e. e.0) out)
  Pairwise-Distinct [] apart keyed = tt
  Pairwise-Distinct (x ∷ out) apart (key, keyed) = (
    firsts out keyed (λ j y e.
        subst (λ k. compatible k y.1 ≡ false) key (apart 0 (suc j) (omega arith) x y refl e)),
    Pairwise-Distinct out (λ i j ne. apart (suc i) (suc j) (omega (arith, ne))) keyed,
  )
    where
      firsts :
          (l : List (Entry w))
          → Keyed w l
          → ((j : ℕ) (y : Entry w) → get_elem? l j ≡ some y → compatible (keys_of x.0) y.1 ≡ false)
          → All (λ y. compatible (keys_of x.0) (keys_of y) ≡ false) (map (λ e. e.0) l)
      firsts [] k h = tt
      firsts (y ∷ l) (k, ks) h = (
        subst (λ m. compatible (keys_of x.0) m ≡ false) k (h 0 y refl),
        firsts l ks (λ j z e. h (suc j) z e),
      )

  -- The loop ends for all lists, within the rounds that it is given, with no two compatible records
  -- left: the records that a merge makes compatible are merged too. There are no more than at first.
  pub dedupe-Distinct :
      (hits : List H)
      → (after : List H) × (dedupe w hits ≡ some after)
        × Distinct after
        × (length after ≤ length hits)
  unfolding dedupe
  dedupe-Distinct hits =
      let (out, e, s) = insert_all-IsAll [] hits (λ i j ne x y ex ey. absurd (cc)) tt in
      (
        map (λ x. x.0) out,
        rw e refl,
        Pairwise-Distinct out s.pairwise s.all_keyed,
        omega (arith, s.no_longer, length-map (λ (x : Entry w). x.0) out),
      )

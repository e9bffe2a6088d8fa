-- ===== src/Hits/Dedupe/Idempotent.antt =====
-- Deduplicating records of which no two are compatible changes nothing.
use paperbridge.Prelude.{
  All, All-concat, All-of_append, List, [], append-nil, append_assoc, false, map, refl, some,
  some-injective, subst, sym, ◌++◌, ◌∙◌, ◌∷◌, ◌≡◌, map-append,
}
use paperbridge.Hits.Dedupe.{Entry, Identity, dedupe, entry, insert, insert_all}
use paperbridge.Hits.Dedupe.Result.{Distinct, dedupe-Distinct, position-none_of}

module _ {H K : Type 0} (w : Identity H K) where
  open w use {keys_of, compatible}

  -- The records before one are apart from it.
  Distinct-before :
      (xs : List H) (y : H) (ys : List H)
      → Distinct w (xs ++ y ∷ ys)
      → All (λ x. compatible (keys_of x) (keys_of y) ≡ false) xs
  Distinct-before [] y ys h = tt
  Distinct-before (x ∷ xs) y ys (first, rest) =
      let (_, (here, _)) =
        All-of_append (λ z. compatible (keys_of x) (keys_of z) ≡ false) xs (y ∷ ys) first in
      (here, Distinct-before xs y ys rest)

  to_entries :
      (out : List (Entry w)) (y : H)
      → All (λ e. e.1 ≡ keys_of e.0) out
      → All (λ x. compatible (keys_of x) (keys_of y) ≡ false) (map (λ e. e.0) out)
      → All (λ e. compatible e.1 (keys_of y) ≡ false) out
  to_entries [] y keyed h = tt
  to_entries (e ∷ out) y (key, keyed) (p, h) =
      (subst (λ k. compatible k (keys_of y) ≡ false) (sym key) p, to_entries out y keyed h)

  insert_all-Distinct :
      (out : List (Entry w)) (hits : List H)
      → All (λ e. e.1 ≡ keys_of e.0) out
      → Distinct w (map (λ e. e.0) out ++ hits)
      → (after : List (Entry w)) × (insert_all w out hits ≡ some after)
        × (map (λ e. e.0) after ≡ map (λ e. e.0) out ++ hits)
  unfolding insert_all insert
  insert_all-Distinct out [] keyed h = (out, refl, sym (append-nil (map (λ e. e.0) out)))
  insert_all-Distinct out (hit ∷ hits) keyed h =
      let alone =
        position-none_of (λ e. compatible e.1 (keys_of hit)) out
          (to_entries out hit keyed (Distinct-before (map (λ e. e.0) out) hit hits h)) in
      let grown : map (λ e. e.0) (out ++ entry w hit ∷ []) ++ hits
          ≡ map (λ e. e.0) out ++ hit ∷ hits =
        rw
          (
            map-append (λ (e : Entry w). e.0) out (entry w hit ∷ []),
            append_assoc (map (λ (e : Entry w). e.0) out) (hit ∷ []) hits,
          )
          refl in
      let (after, run, same) =
        insert_all-Distinct (out ++ entry w hit ∷ []) hits
          (All-concat (λ e. e.1 ≡ keys_of e.0) out (entry w hit) keyed refl)
          (subst (λ l. Distinct w l) (sym grown) h) in
      (after, rw alone run, same ∙ grown)

  pub dedupe_self : (hits : List H) → Distinct w hits → dedupe w hits ≡ some hits
  unfolding dedupe
  dedupe_self hits h =
      let (after, run, same) = insert_all-Distinct [] hits tt h in rw (run, same) refl

  -- Deduplicating a second time changes nothing: from any records, the result of `dedupe` is one that
  -- `dedupe` returns as it is.
  pub dedupe_idem : (hits after : List H) → dedupe w hits ≡ some after → dedupe w after ≡ some after
  dedupe_idem hits after e =
      let (found, run, distinct, _) = dedupe-Distinct w hits in
      let same : found ≡ after = some-injective _ _ (sym run ∙ e) in
      subst (λ l. dedupe w l ≡ some l) same (dedupe_self found distinct)

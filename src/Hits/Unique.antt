-- ===== src/Hits/Unique.antt =====
-- `dedupe` of src/external/mod.rs on hits.
use paperbridge.Prelude.{All, Bool, List, Option, [], false, length, some, ◌∷◌, ◌≡◌, ◌≤◌}
use paperbridge.Hits.{Hit, Platform}
use paperbridge.Hits.Keys.{IdentityKeys, compatible, compatible_comm, keys_of}
use paperbridge.Hits.Merge.{merge_hit_metadata}
use paperbridge.Hits.Dedupe.{Identity, dedupe}
use paperbridge.Hits.Dedupe.Result.{Distinct, dedupe-Distinct}

module _ (p : Platform) {F32 : Type 0} where
  abbrev pub hit_identity : Identity (Hit F32) IdentityKeys
  hit_identity = record {
    keys_of = keys_of p;
    compatible = compatible;
    merge = merge_hit_metadata p;
    compatible_comm = compatible_comm;
  }

  -- `compatible_identity`.
  abbrev pub compatible_identity : Hit F32 → Hit F32 → Bool
  compatible_identity left right = compatible (keys_of p left) (keys_of p right)

  abbrev pub dedupe_hits : List (Hit F32) → Option (List (Hit F32))
  dedupe_hits = dedupe hit_identity

  abbrev pub NoneCompatible : List (Hit F32) → Type 0
  NoneCompatible [] = Unit
  NoneCompatible (x ∷ xs) = All (λ y. compatible_identity x y ≡ false) xs × NoneCompatible xs

  Distinct-NoneCompatible :
      (hits : List (Hit F32)) → Distinct hit_identity hits → NoneCompatible hits
  Distinct-NoneCompatible [] h = tt
  Distinct-NoneCompatible (x ∷ xs) (h, hs) = (h, Distinct-NoneCompatible xs hs)

  -- Deduplicating any hits ends with a result, in which no two hits describe one work: a merge that
  -- brings two further hits together is followed by theirs. There are no more hits than at first.
  pub dedupe_hits-NoneCompatible :
      (hits : List (Hit F32))
      → (after : List (Hit F32)) × (dedupe_hits hits ≡ some after)
        × NoneCompatible after
        × (length after ≤ length hits)
  dedupe_hits-NoneCompatible hits =
      let (after, e, distinct, few) = dedupe-Distinct hit_identity hits in
      (after, e, Distinct-NoneCompatible after distinct, few)

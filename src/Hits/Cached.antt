-- ===== src/Hits/Cached.antt =====
-- `merge_prefer_cached` of src/service.rs: hits of the local cache take the places of the external hits
-- for the same work.
use paperbridge.Prelude.{
  List, Option, [], drop, foldl, get_elem?, if◌then◌else◌, leb, length, none, position, set, some,
  take, ℕ, ◌++◌, ◌∷◌,
}
use paperbridge.Hits.{Hit, Platform}
use paperbridge.Hits.Merge.{merge_hit_metadata}
use paperbridge.Hits.Unique.{compatible_identity}

module _ (p : Platform) {F32 : Type 0} where
  unfoldable pub collision_index : List (Hit F32) → Hit F32 → Option ℕ
  collision_index externals cache_hit =
      position (λ ext. compatible_identity p ext cache_hit) externals

  -- The body of the loop.
  unfoldable pub prefer_cached : List (Hit F32) → Hit F32 → List (Hit F32)
  unfolding collision_index
  prefer_cached hits cache_hit = place (collision_index hits cache_hit)
    where
      merged : ℕ → Option (Hit F32) → List (Hit F32)
      merged idx none = hits  -- not reached
      merged idx (some ext) = set hits idx (merge_hit_metadata p cache_hit ext)

      place : Option ℕ → List (Hit F32)
      place none = hits ++ cache_hit ∷ []
      place (some idx) = merged idx (get_elem? hits idx)

  unfoldable pub merge_prefer_cached : List (Hit F32) → ℕ → List (Hit F32)
  unfolding prefer_cached
  merge_prefer_cached hits cache_start =
      if leb (length hits) cache_start
      then hits
      else foldl prefer_cached (take cache_start hits) (drop cache_start hits)

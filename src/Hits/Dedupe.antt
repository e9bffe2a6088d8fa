-- ===== src/Hits/Dedupe.antt =====
-- `dedupe` of src/external/mod.rs on any records with identity keys, which the code keeps in a vector
-- beside the records and computes again only after a merge.
pub mod Recheck
pub mod Result
pub mod Idempotent
use paperbridge.Prelude.{
  Bool, List, Option, [], get_elem?, if◌then◌else◌, length, ltb, map, max, min, none, not, position,
  remove_at, set, some, suc, zero, ℕ, ◌&&◌, ◌++◌, ◌+◌, ◌==◌, ◌>>=◌, ◌∷◌, ◌≡◌,
}

-- What `dedupe` asks of the records: keys, a test on keys, and a merge into the first record.
pub record Identity (H K : Type 0) : Type 0 where
  pub keys_of : H → K
  pub compatible : K → K → Bool
  pub merge : H → H → H
  pub compatible_comm : (k l : K) → compatible k l ≡ compatible l k

module _ {H K : Type 0} (w : Identity H K) where
  open w use {keys_of, compatible, merge}

  -- A record beside its keys.
  abbrev pub Entry : Type 0
  Entry = H × K

  abbrev pub entry : H → Entry
  entry hit = (hit, keys_of hit)

  -- `keys[i].compatible(&keys[j])`; `none` is an index out of range.
  abbrev pub compatible_at : List Entry → ℕ → ℕ → Option Bool
  compatible_at out i j = do x ← get_elem? out i; y ← get_elem? out j; some (compatible x.1 y.1)

  -- Removes the later of the two records, and merges it into the earlier.
  unfoldable pub merge_at : List Entry → ℕ → ℕ → Option (List Entry)
  merge_at out kept removed = do
    other ← get_elem? out removed
    first ← get_elem? (remove_at out removed) kept
    some (set (remove_at out removed) kept (entry (merge first.0 other.0)))

  -- The `while` loop over the candidates, on fuel: `none` if the fuel runs out or an index is out of
  -- range. The first two arguments are `index` and `candidate`.
  unfoldable pub recheck : ℕ → List Entry → ℕ → ℕ → Option (List Entry)
  unfolding merge_at
  recheck zero out index candidate = none
  recheck (suc fuel) out index candidate =
      let again = λ (next : List Entry). recheck fuel next (min index candidate) 0 in
      let rest = recheck fuel out index (candidate + 1) in
      if ltb candidate (length out)
      then (compatible_at out index candidate >>= λ hit.
          if not (candidate == index) && hit
          then merge_at out (min index candidate) (max index candidate) >>= again
          else rest)
      else some out

  -- Rounds that are enough for `n` records.
  abbrev pub budget : ℕ → ℕ
  budget zero = 0
  budget (suc n) = budget n + n + 1

  -- The body of the loop over the hits.
  pub insert : List Entry → H → Option (List Entry)
  unfolding recheck
  insert out hit = place (position (λ e. compatible e.1 (keys_of hit)) out)
    where
      place : Option ℕ → Option (List Entry)
      place none = some (out ++ entry hit ∷ [])
      place (some index) = do
        first ← get_elem? out index
        let merged = set out index (entry (merge first.0 hit))
        recheck (budget (length out) + length out + 1) merged index 0

  pub insert_all : List Entry → List H → Option (List Entry)
  unfolding insert
  insert_all out [] = some out
  insert_all out (hit ∷ hits) = do next ← insert out hit; insert_all next hits

  unfoldable pub dedupe : List H → Option (List H)
  unfolding insert_all
  dedupe hits = do out ← insert_all [] hits; some (map (λ e. e.0) out)

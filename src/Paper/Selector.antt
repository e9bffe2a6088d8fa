-- ===== src/Paper/Selector.antt =====
-- `evaluate` of src/paper/selector.rs: the part of a JSON value that a selector names. The values are
-- those of `serde_json`: a parameter, with what a value is made of.
pub mod Indices
pub mod Paths
use paperbridge.Prelude.{
  List, Option, [], get_elem?, if◌then◌else◌, is_empty, ltb, map, none, some, ℕ, ◌++◌, ◌==◌, ◌||◌,
  ◌∷◌,
}
use paperbridge.Text.{Text, byte_len, codes, eq_text, trim}
use paperbridge.Router.Delay.{parse_u64}

-- A value's shape; the scalars are not told apart.
pub data Shape (V : Type 0) : Type 0 where
  array : List V → Shape V
  object : List (Text × V) → Shape V
  scalar : Shape V

-- What an error says; a missing key comes with the keys that are there, which the message has sorted.
pub data SelectorError : Type 0 where
  oversized unclosed : SelectorError
  missing_key : Text → List Text → SelectorError
  array_for_key scalar_for_key : Text → SelectorError
  bad_index : Text → SelectorError
  index_out_of_range not_an_array : ℕ → SelectorError

pub data Selected (V : Type 0) : Type 0 where
  selected : V → Selected V
  invalid : SelectorError → Selected V

infixl 5 ◌>>-◌
abbrev pub ◌>>-◌ : {V W : Type 0} → Selected V → (V → Selected W) → Selected W
selected v >>- next = next v
invalid e >>- next = invalid e

module _ {V : Type 0} where
  -- `map.get(key)`.
  abbrev pub get : List (Text × V) → Text → Option V
  get [] key = none
  get ((k, v) ∷ fields) key = let later = get fields key in if eq_text k key then some v else later

  abbrev pub found_or : SelectorError → Option V → Selected V
  found_or e none = invalid e
  found_or e (some v) = selected v

  abbrev pub key_in : Text → Shape V → Selected V
  key_in key (object fields) = found_or (missing_key key (map (λ f. f.0) fields)) (get fields key)
  key_in key (array items) = invalid (array_for_key key)
  key_in key scalar = invalid (scalar_for_key key)

  abbrev pub item_in : ℕ → Shape V → Selected V
  item_in i (array items) = found_or (index_out_of_range i) (get_elem? items i)
  item_in i (object fields) = invalid (not_an_array i)
  item_in i scalar = invalid (not_an_array i)

-- Where the loop stands: in a key, or behind a `[` and looking for the `]`.
pub data Mode : Type 0 where
  in_key : Text → Mode
  in_index : Text → Mode

module _ {V : Type 0} (shape : V → Shape V) where
  unfoldable pub descend_key : V → Text → Selected V
  descend_key value key = key_in key (shape value)

  unfoldable pub descend_index : V → ℕ → Selected V
  descend_index value i = item_in i (shape value)

  -- `if !buf.is_empty() { current = descend_key(…) }`.
  unfoldable pub leave_key : V → Text → Selected V
  unfolding descend_key
  leave_key value buf = if is_empty buf then selected value else descend_key value buf

  abbrev index_at : V → Text → Option ℕ → Selected V
  index_at value idx_str none = invalid (bad_index idx_str)
  index_at value idx_str (some i) = descend_index value i

  unfoldable pub leave_index : V → Text → Selected V
  unfolding descend_index
  leave_index value idx_str = index_at value idx_str (parse_u64 (trim idx_str))

  -- The loop over the characters, and what follows it.
  unfoldable pub walk : V → Mode → Text → Selected V
  unfolding leave_key leave_index
  walk value (in_key buf) [] = leave_key value buf
  walk value (in_index buf) [] = invalid unclosed
  walk value (in_key buf) (c ∷ s) =
      if c == b'.'
      then (leave_key value buf >>- λ v. walk v (in_key []) s)
      else if c == b'['
      then (leave_key value buf >>- λ v. walk v (in_index []) s)
      else walk value (in_key (buf ++ c ∷ [])) s
  walk value (in_index buf) (c ∷ s) =
      if c == b']'
      then (leave_index value buf >>- λ v. walk v (in_key []) s)
      else walk value (in_index (buf ++ c ∷ [])) s

  unfoldable pub evaluate : V → Text → Selected V
  unfolding walk
  evaluate root selector =
      let trimmed = trim selector in
      if ltb 4096 (byte_len trimmed)
      then invalid oversized
      else if is_empty trimmed || eq_text trimmed (codes ".")
      then selected root
      else walk root (in_key []) trimmed

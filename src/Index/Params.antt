-- ===== src/Index/Params.antt =====
-- crates/paperseed-index/src/params.rs over an abstract type of floats, and the float operations
-- that building and validating an index use.
use paperbridge.Prelude.{
  Bool, List, false, true, ℕ, ◌<◌, ◌≡◌, Option, Option-cases, [], arith, if◌then◌else◌, inl, inr,
  leb, length, none, some, ◌+◌, ◌>>=◌, ◌^◌, ◌∷◌,
}
use paperbridge.Text.{Text, eq_text}

-- `f32` and the operations on it. The laws are those of IEEE arithmetic: zero is finite and not
-- negative, and so is the quotient of a `u64` by a count above 0.
pub record Floats : Type 1 where
  pub F32 : Type 0
  pub zero : F32
  pub quotient : ℕ → ℕ → F32  -- `(total as f64 / n as f64) as f32`
  pub is_finite : F32 → Bool
  pub is_negative : F32 → Bool  -- `v < 0.0`
  pub zero_finite : (is_finite zero ≡ true) × (is_negative zero ≡ false)
  pub quotient_finite :
      (total n : ℕ)
      → total < 2 ^ 64
      → 0 < n
      → (is_finite (quotient total n) ≡ true) × (is_negative (quotient total n) ≡ false)

module _ (fl : Floats) where
  open fl use {F32}

  pub record FieldParams : Type 0 where
    pub name : Text
    pub b : F32
    pub weight : F32

  pub record BuildOptions : Type 0 where
    pub k1 : F32
    pub fields : List FieldParams

module _ {fl : Floats} where
  position : Text → List (FieldParams fl) → Option ℕ
  position name [] = none
  position name (f ∷ fs) =
      let later = (do i ← position name fs; some (i + 1)) in
      if eq_text f.name name then some 0 else later

  -- `position` and `u8::try_from`.
  unfoldable pub field_id : BuildOptions fl → Text → Option ℕ
  unfolding position
  field_id o name = do i ← position name o.fields; if leb i 255 then some i else none

  unfoldable pub field_count : BuildOptions fl → ℕ
  field_count o = length o.fields

  position-lt :
      (name : Text) (fs : List (FieldParams fl)) (i : ℕ) → position name fs ≡ some i → i < length fs
  unfolding position
  position-lt name [] i h = cc
  position-lt name (f ∷ fs) i h = elim (Option-cases (position name fs)) [
    | inl e ↦ ground arith
    | inr (j, e) ↦ ground (arith, position-lt name fs j e)
  ]

  -- A field id is an index of a field.
  pub field_id-lt :
      (o : BuildOptions fl) (name : Text) (i : ℕ) → field_id o name ≡ some i → i < field_count o
  unfolding field_id field_count
  field_id-lt o name i h = elim (Option-cases (position name o.fields)) [
    | inl e ↦ ground arith
    | inr (j, e) ↦ ground (arith, position-lt name o.fields j e)
  ]

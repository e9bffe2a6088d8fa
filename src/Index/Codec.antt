-- ===== src/Index/Codec.antt =====
-- `to_bytes` and `from_bytes` of crates/paperseed-index/src/index.rs: a magic number, the schema
-- version in little-endian order, and the body in the `postcard` format, whose codec is a parameter.
use paperbridge.Prelude.{
  Option, [], arith, drop, if◌then◌else◌, leb, length, none, some, take, ℕ, ◌%◌, ◌*◌, ◌++◌, ◌+◌,
  ◌/◌, ◌<◌, ◌==◌, ◌^◌, ◌∷◌, ◌≡◌, subst, true, refl,
}
use paperbridge.Text.{Text, codes, eq_text}
use paperbridge.Index.Params.{Floats}
use paperbridge.Index.Data.{
  ◌>>◌, ◌>>=◌, >>=-eq-ok, Index, IndexResult, bad_magic, err, missing_header, ok, postcard, require,
  schema_mismatch, schema_version, validate,
}

abbrev pub magic : Text
magic = codes "PSIX"

abbrev pub header_len : ℕ
header_len = length magic + 4

-- `u32::to_le_bytes` and `u32::from_le_bytes`.
unfoldable pub to_le_bytes : ℕ → Text
to_le_bytes n = n % 256 ∷ n / 256 % 256 ∷ n / 65536 % 256 ∷ n / 16777216 % 256 ∷ []

unfoldable pub from_le_bytes : Text → ℕ
from_le_bytes [] = 0
from_le_bytes (b ∷ bs) = b + 256 * from_le_bytes bs

pub from_le_bytes-to_le_bytes : (n : ℕ) → n < 2 ^ 32 → from_le_bytes (to_le_bytes n) ≡ n
unfolding from_le_bytes to_le_bytes
from_le_bytes-to_le_bytes n h = omega arith

-- The serializer of the body, and its inverse; either may fail.
pub record Codec (A : Type 0) : Type 0 where
  pub encode : A → Option Text
  pub decode : Text → Option A

abbrev or_postcard {ℓ} : {A : Type ℓ} → Option A → IndexResult A
or_postcard none = err postcard
or_postcard (some a) = ok a

-- `if version != SCHEMA_VERSION { return Err(SchemaMismatch { … }) }`.
abbrev require_version : ℕ → IndexResult (Unit {0})
require_version version =
    if version == schema_version then ok tt else err (schema_mismatch schema_version version)

require_version_sound : (version : ℕ) → require_version version ≡ ok tt → version ≡ schema_version
require_version_sound version h = ground arith

module _ {fl : Floats} where
  check_read :
      (index : Index fl)
      → index.version ≡ schema_version
      → validate index ≡ ok tt
      → (require_version index.version >> (validate index >> ok index)) ≡ ok index
  check_read index version valid = ground (arith, version, valid)

module _ {fl : Floats} (codec : Codec (Index fl)) where
  unfoldable pub to_bytes : Index fl → IndexResult Text
  to_bytes index = do
    body ← or_postcard (codec.encode index)
    ok (magic ++ (to_le_bytes schema_version ++ body))

  unfoldable pub from_bytes : Text → IndexResult (Index fl)
  from_bytes bytes =
      let header = take header_len bytes in
      do
        require (leb header_len (length bytes)) missing_header
        require (eq_text (take (length magic) header) magic) bad_magic
        require_version (from_le_bytes (drop (length magic) header))
        index ← or_postcard (codec.decode (drop header_len bytes))
        require_version index.version
        validate index
        ok index

  long_enough :
      (body : Text) → leb header_len (length (magic ++ (to_le_bytes schema_version ++ body))) ≡ true
  unfolding to_le_bytes
  long_enough body = ground arith

  -- A valid index of the current version is written, and read back from its bytes, if the codec
  -- writes its body and reads that back.
  pub from_bytes-to_bytes :
      (index : Index fl) (body : Text)
      → codec.encode index ≡ some body
      → codec.decode body ≡ some index
      → index.version ≡ schema_version
      → validate index ≡ ok tt
      → (bytes : Text) × (to_bytes index ≡ ok bytes)
        × (length bytes ≡ header_len + length body)
        × (from_bytes bytes ≡ ok index)
  unfolding from_bytes to_bytes to_le_bytes from_le_bytes
  from_bytes-to_bytes index body written read version valid = (
    magic ++ (to_le_bytes schema_version ++ body),
    rw written refl,
    omega arith,
    rw (long_enough body, read) (check_read index version valid),
  )

  -- Whatever bytes are given, an index that is read satisfies the invariants and has the current
  -- version.
  pub from_bytes_sound :
      (bytes : Text) {index : Index fl}
      → from_bytes bytes ≡ ok index
      → (validate index ≡ ok tt) × (index.version ≡ schema_version)
  unfolding from_bytes
  from_bytes_sound bytes {index} h0 =
      let (_, _, h1) = >>=-eq-ok (require (leb header_len (length bytes)) missing_header) _ h0 in
      let (_, _, h2) =
        >>=-eq-ok (require (eq_text (take (length magic) (take header_len bytes)) magic) bad_magic)
          _ h1 in
      let (_, _, h3) =
        >>=-eq-ok (require_version (from_le_bytes (drop (length magic) (take header_len bytes)))) _
          h2 in
      let (read, _, h4) = >>=-eq-ok (or_postcard (codec.decode (drop header_len bytes))) _ h3 in
      let (_, version, h5) = >>=-eq-ok (require_version read.version) _ h4 in
      let (_, valid, h6) = >>=-eq-ok (validate read) _ h5 in
      let same : read ≡ index = ground arith in
      (
        subst (λ i. validate i ≡ ok tt) same valid,
        subst (λ i. i.version ≡ schema_version) same (require_version_sound read.version version),
      )

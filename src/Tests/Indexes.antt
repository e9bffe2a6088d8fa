-- ===== src/Tests/Indexes.antt =====
-- An index of one document on plain numbers and ASCII letters.
use paperbridge.Index.Search.Hits.{IsFound, search-IsFound}
use paperbridge.Index.Search.{ScoredHit, Scoring, search}
use paperbridge.Index.Upsert.Valid.{ids_with, upsert_document-validate}
use paperbridge.Index.Upsert.{upsert_document}
use paperbridge.Prelude.{
  List, [], arith, false, length, refl, some, true, ℕ, ◌+◌, ◌/◌, ◌<◌, ◌^◌, ◌||◌, ◌↔◌, ◌∷◌, ◌≡◌, All,
  ltb, ◌*◌, ◌-◌, ◌==◌, ◌≤◌, Option, none,
}
use paperbridge.Text.{Text, ascii_lower, codes, is_ascii_digit, within}
use paperbridge.Maps.{nat_eq, text_eq, NodupKeys}
use paperbridge.Index.Params.{BuildOptions, Floats, field_count}
use paperbridge.Index.Tokenizer.{Unicode}
use paperbridge.Index.Data.{Index, ok, schema_version, validate}
use paperbridge.Index.Data.Validity.{FiniteOptions, IsValid}
use paperbridge.Index.Data.Check.{validate_iff}
use paperbridge.Index.Codec.{Codec, from_bytes, from_bytes-to_bytes, to_bytes, header_len}
use paperbridge.Index.Builder.{Builder, build, new}
use paperbridge.Index.Builder.Invariant.{new-IsBuilder}
use paperbridge.Index.Builder.Build.{add_documents, build-IsValid, build-validate}

-- Whole numbers in place of floats, all of them finite.
abbrev whole : Floats
whole = record {
  F32 = ℕ;
  zero = 0;
  quotient = λ total n. total / n;
  is_finite = λ v. true;
  is_negative = λ v. false;
  zero_finite = (refl, refl);
  quotient_finite = λ total n h k. (refl, refl);
}

abbrev ascii : Unicode
ascii = record {
  nfkd = λ s. s;
  is_combining_mark = λ c. false;
  is_alphanumeric = λ c. within b'a' b'z' (ascii_lower c) || is_ascii_digit c;
  to_lowercase = λ c. ascii_lower c ∷ [];
}

abbrev options : BuildOptions whole
options = record { k1 = 1; fields = record { name = codes "title"; b = 1; weight = 2 } ∷ [] }

abbrev corpus : List (Text × List (Text × Text))
corpus = (codes "doc-1", (codes "title", codes "Parsing papers") ∷ []) ∷ []

options_finite : FiniteOptions options
unfolding field_count
options_finite = (refl, refl, ((refl, refl), tt), omega arith)

build-validate_example :
    (b : Builder whole) × (add_documents ascii (new options) corpus ≡ some b)
    × (validate (build b) ≡ ok tt)
build-validate_example = build-validate ascii options corpus options_finite (omega arith)

-- The index of no documents, and a codec that knows only that.
abbrev none_built : Index whole
none_built = build (new options)

abbrev fixed_codec : Codec (Index whole)
fixed_codec = record { encode = λ index. some (codes "body"); decode = λ bytes. some none_built }

none_valid : validate none_built ≡ ok tt
none_valid = (validate_iff none_built).1 (
    build-IsValid ascii (new options) (new-IsBuilder options options_finite)
      (unfold new in omega arith))

validate_iff_example : (validate none_built ≡ ok tt) ↔ IsValid none_built
validate_iff_example = validate_iff none_built

none_current : none_built.version ≡ schema_version
unfolding build
none_current = refl

from_bytes-to_bytes_example :
    (bytes : Text) × (to_bytes fixed_codec none_built ≡ ok bytes)
    × (length bytes ≡ header_len + length (codes "body"))
    × (from_bytes fixed_codec bytes ≡ ok none_built)
from_bytes-to_bytes_example =
    from_bytes-to_bytes fixed_codec none_built (codes "body") refl refl none_current none_valid

none_once : NodupKeys none_built.postings
unfolding build new
none_once = tt

upsert_document-validate_example :
    (after : Index whole) × (upsert_document ascii none_built
        (codes "doc-1")
        ((codes "title", codes "Parsing") ∷ [])
      ≡ some after)
    × (validate after ≡ ok tt)
    × NodupKeys after.postings
    × (after.doc_ids ≡ ids_with none_built.doc_ids (codes "doc-1"))
upsert_document-validate_example =
    upsert_document-validate ascii none_built (codes "doc-1")
      ((codes "title", codes "Parsing") ∷ []) none_valid none_once few
  where
    few : length none_built.doc_ids + 1 < 2 ^ 32
    few = unfold build new in omega arith

-- Scores in whole numbers, where `ln` is the identity.
abbrev scoring : Scoring whole
scoring = record {
  of_nat = λ n. n;
  add = λ a b. a + b;
  sub = λ a b. a - b;
  mul = λ a b. a * b;
  div = λ a b. a / b;
  ln = λ a. a;
  half = 1;
  is_positive = λ a. ltb 0 a;
  is_not_positive = λ a. a == 0;
  is_zero = λ a. a == 0;
  is_greater = λ a b. ltb b a;
}

-- An index, where there is one.
abbrev or_none_built : Option (Index whole) → Index whole
or_none_built none = none_built
or_none_built (some index) = index

abbrev one_document : Index whole
one_document =
    or_none_built
      (upsert_document ascii none_built (codes "doc-1") ((codes "title", codes "Parsing") ∷ []))

search-IsFound_example :
    (hits : List (ScoredHit whole)) × (search scoring ascii one_document (codes "parsing") 3
      ≡ some hits)
    × (length hits ≤ 3)
    × All (IsFound scoring one_document) hits
search-IsFound_example = search-IsFound scoring ascii one_document (codes "parsing") 3

-- ===== src/Index/Data/Check.antt =====
-- `validate` accepts exactly the valid indexes.
use paperbridge.Prelude.{
  All, Bool, List, [], arith, false, length, ltb, ltb→lt, lt→ltb, not, refl, true, ℕ, ◌&&◌, ◌<◌,
  ◌∷◌, ◌≡◌, ==_iff, leb→le, ◌^◌, ◌↔◌, le→leb, ◌==◌, is_empty,
}
use paperbridge.Index.Params.{Floats, field_count}
use paperbridge.Index.Data.{
  check_posting, check_posting_list, check_postings, ◌>>◌, Index, IndexResult, Posting, Postings,
  Reason, empty_postings, err, invalid_k1, non_finite_field, ok, require, too_many_fields,
  unsorted_postings, validate, duplicate_id, invalid_averages, row_count, row_width,
  too_many_documents,
}
use paperbridge.Index.Data.Validity.{
  AllLists, InRange, IsValid, all_complete, all_sound, windows_complete, windows_sound,
  no_duplicates_sound, no_duplicates_complete,
}

>>-eq-ok : (m k : IndexResult (Unit {0})) → (m >> k) ≡ ok tt → (m ≡ ok tt) × (k ≡ ok tt)
>>-eq-ok (ok tt) k h = (refl, h)
>>-eq-ok (err e) k h = cc

require_then :
    {b : Bool} (r : Reason) (k : IndexResult (Unit {0}))
    → (require b r >> k) ≡ ok tt
    → (b ≡ true) × (k ≡ ok tt)
require_then {b} r k h = split b h
  where
    split : (c : Bool) → (require c r >> k) ≡ ok tt → (c ≡ true) × (k ≡ ok tt)
    split true g = (refl, g)
    split false g = cc

and-eq-true : (a b : Bool) → (a && b) ≡ true → (a ≡ true) × (b ≡ true)
and-eq-true true b h = (refl, h)
and-eq-true false b h = cc

not-eq-true : (b : Bool) → not b ≡ true → b ≡ false
not-eq-true true h = cc
not-eq-true false h = refl

and_not-eq-true : (a b : Bool) → (a && not b) ≡ true → (a ≡ true) × (b ≡ false)
and_not-eq-true true false h = (refl, refl)
and_not-eq-true true true h = cc
and_not-eq-true false b h = cc

module _ (n_docs n_fields : ℕ) where
  check_posting_sound :
      (p : Posting) → check_posting n_docs n_fields p ≡ ok tt → InRange n_docs n_fields p
  unfolding check_posting
  check_posting_sound p h = (
    ground arith,
    all_sound (λ f. ltb f.field n_fields) (λ f. f.field < n_fields) (λ f. ltb→lt f.field n_fields)
        p.fields (ground arith),
  )

  check_posting_complete :
      (p : Posting) → InRange n_docs n_fields p → check_posting n_docs n_fields p ≡ ok tt
  unfolding check_posting
  check_posting_complete p (h, fs) = ground (
    arith,
    all_complete (λ f. ltb f.field n_fields) (λ f. f.field < n_fields)
        (λ f. lt→ltb f.field n_fields) p.fields fs,
  )

  check_posting_list_sound :
      (ps : List Posting)
      → check_posting_list n_docs n_fields ps ≡ ok tt
      → All (InRange n_docs n_fields) ps
  unfolding check_posting_list
  check_posting_list_sound [] h = tt
  check_posting_list_sound (p ∷ ps) h =
      let (a, b) =
        >>-eq-ok (check_posting n_docs n_fields p) (check_posting_list n_docs n_fields ps) h in
      (check_posting_sound p a, check_posting_list_sound ps b)

  check_posting_list_complete :
      (ps : List Posting)
      → All (InRange n_docs n_fields) ps
      → check_posting_list n_docs n_fields ps ≡ ok tt
  unfolding check_posting_list
  check_posting_list_complete [] h = refl
  check_posting_list_complete (p ∷ ps) (h, hs) =
      rw (check_posting_complete p h) (check_posting_list_complete ps hs)

  check_postings_sound :
      (m : Postings) → check_postings n_docs n_fields m ≡ ok tt → AllLists n_docs n_fields m
  unfolding check_postings
  check_postings_sound [] h = tt
  check_postings_sound ((term, ps) ∷ rest) h =
      let (a, h1) = require_then empty_postings _ h in
      let (b, h2) = require_then unsorted_postings _ h1 in
      let (c, h3) = >>-eq-ok (check_posting_list n_docs n_fields ps) _ h2 in
      (
        (not-eq-true (is_empty ps) a, windows_sound ps b, check_posting_list_sound ps c),
        check_postings_sound rest h3,
      )

  check_postings_complete :
      (m : Postings) → AllLists n_docs n_fields m → check_postings n_docs n_fields m ≡ ok tt
  unfolding check_postings
  check_postings_complete [] h = refl
  check_postings_complete ((term, ps) ∷ rest) ((some_posting, increasing, ranges), hs) =
      rw (some_posting, windows_complete ps increasing, check_posting_list_complete ps ranges)
        (check_postings_complete rest hs)

module _ {fl : Floats} (index : Index fl) where
  open fl use {is_finite, is_negative}

  validate_sound : validate index ≡ ok tt → IsValid index
  unfolding validate
  validate_sound h0 =
      let (k1, h1) = require_then invalid_k1 _ h0 in
      let (floats, h2) = require_then non_finite_field _ h1 in
      let (narrow, h3) = require_then too_many_fields _ h2 in
      let (few, h4) = require_then too_many_documents _ h3 in
      let (rows, h5) = require_then row_count _ h4 in
      let (widths, h6) = require_then row_width _ h5 in
      let (averages, h7) = require_then invalid_averages _ h6 in
      let (distinct, h8) = require_then duplicate_id _ h7 in
      let (finite, positive) = and_not-eq-true _ _ k1 in
      let (wide, bounded) = and-eq-true _ _ averages in
      record {
        options_finite = (
          finite,
          positive,
          all_sound _ _ (λ f. and-eq-true (is_finite f.b) (is_finite f.weight)) _ floats,
          leb→le _ 256 narrow,
        );
        docs_bounded = ltb→lt (length index.doc_ids) (2 ^ 32) few;
        row_per_doc = (==_iff _ _).0 rows;
        rows_wide =
            all_sound _ _ (λ row. (==_iff (length row) (field_count index.options)).0) _ widths;
        averages_wide = (==_iff _ _).0 wide;
        averages_finite =
            all_sound _ _ (λ v. and_not-eq-true (is_finite v) (is_negative v)) _ bounded;
        ids_nodup = no_duplicates_sound _ distinct;
        lists = check_postings_sound _ _ _ h8;
      }

  validate_complete : IsValid index → validate index ≡ ok tt
  unfolding validate
  validate_complete v =
      let (finite, positive, floats, narrow) = v.options_finite in
      rw
        (
          finite,
          positive,
          all_complete (λ f. is_finite f.b && is_finite f.weight)
              (λ f. (is_finite f.b ≡ true) × (is_finite f.weight ≡ true)) (λ f h. ground arith)
              index.options.fields floats,
          le→leb (field_count index.options) 256 narrow,
          lt→ltb (length index.doc_ids) (2 ^ 32) v.docs_bounded,
          (==_iff (length index.field_lens) (length index.doc_ids)).1 v.row_per_doc,
          all_complete (λ row. length row == field_count index.options)
              (λ row. length row ≡ field_count index.options)
              (λ row. (==_iff (length row) (field_count index.options)).1) index.field_lens
              v.rows_wide,
          (==_iff (length index.avg_field_len) (field_count index.options)).1 v.averages_wide,
          all_complete (λ a. is_finite a && not (is_negative a))
              (λ a. (is_finite a ≡ true) × (is_negative a ≡ false)) (λ a h. ground arith)
              index.avg_field_len v.averages_finite,
          no_duplicates_complete index.doc_ids v.ids_nodup,
        )
        (check_postings_complete (length index.doc_ids) (field_count index.options) index.postings
          v.lists)

  -- `validate` accepts an index exactly if it satisfies the invariants that `search` relies on.
  pub validate_iff : (validate index ≡ ok tt) ↔ IsValid index
  validate_iff = (validate_sound, validate_complete)

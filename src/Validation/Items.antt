-- ===== src/Validation/Items.antt =====
-- Which requests on items are valid.
use paperbridge.Prelude.{Bool, List, [], arith, false, true, ◌&&◌, ◌++◌, ◌↔◌, ◌≡◌}
use paperbridge.Text.{Text, codes, eq_text}
use paperbridge.Identifiers.{Lowercase, unwrap_or}
use paperbridge.Validation.{
  Issue, ItemUpdateRequest, ItemWriteRequest, any_error, error, given, given_blank, is_blank,
  push_if, report, validate_creators, validate_doi, validate_isbn, validate_item_request,
  validate_item_update_request, validate_tags,
}
use paperbridge.Validation.Acceptable.{
  IsItem, IsItemUpdate, article_iff, creators_iff, doi_warns, given_blank_iff, given_creators_iff,
  given_tags_iff, isbn_warns, split_push, split_report, tags_iff,
}

-- The shape of both reports on an item: three tests, and the issues of four fields.
seven_parts :
    (b1 b2 b3 : Bool) (f1 m1 f2 m2 f3 m3 : Text) (cs ds is ts : List Issue)
    → ((report (
          push_if b1 (error f1 m1)
          ++ (push_if b2 (error f2 m2)
              ++ (push_if b3 (error f3 m3) ++ (cs ++ (ds ++ (is ++ ts))))))).valid
        ≡ true)
      ↔ ((b1 ≡ false)
          × (b2 ≡ false)
          × (b3 ≡ false)
          × (any_error cs ≡ false)
          × (any_error ds ≡ false)
          × (any_error is ≡ false)
          × (any_error ts ≡ false))
unfolding report
seven_parts b1 b2 b3 f1 m1 f2 m2 f3 m3 cs ds is ts =
    let l4 = cs ++ (ds ++ (is ++ ts)) in
    let l3 = push_if b3 (error f3 m3) ++ l4 in
    let l2 = push_if b2 (error f2 m2) ++ l3 in
    ground (
      arith,
      split_push b1 f1 m1 l2,
      split_push b2 f2 m2 l3,
      split_push b3 f3 m3 l4,
      split_report cs (ds ++ (is ++ ts)),
      split_report ds (is ++ ts),
      split_report is ts,
    )

module _ (l : Lowercase) where
  -- A request to write an item is valid exactly if its type is not blank, its title is not blank if
  -- there is one, a journal article has one, each creator has a type and some name, and no tag is
  -- blank: neither the DOI nor the ISBN makes a request invalid.
  pub validate_item_request_iff :
      (req : ItemWriteRequest) → ((validate_item_request l req).valid ≡ true) ↔ IsItem req
  unfolding validate_item_request
  validate_item_request_iff req =
      let parts =
        seven_parts (is_blank req.item_type) (given_blank req.title)
          (eq_text req.item_type (codes "journalArticle") && is_blank (unwrap_or req.title []))
          (codes "item_type") (codes "item_type cannot be empty") (codes "title")
          (codes "title cannot be blank when provided") (codes "title")
          (codes "journalArticle items should include a title") (validate_creators 0 req.creators)
          (validate_doi l req.doi) (validate_isbn req.isbn) (validate_tags 0 req.tags) in
      (
        (λ h.
            let (typed, titled, article, creators, _, _, tags) = parts.0 h in
            record {
              typed = typed;
              title_not_blank = (given_blank_iff req.title).0 titled;
              article_titled = (article_iff req.item_type req.title).0 article;
              creators_named = (creators_iff 0 req.creators).0 creators;
              tags_filled = (tags_iff 0 req.tags).0 tags;
            }),
        (λ h. parts.1 (
          h.typed,
          (given_blank_iff req.title).1 h.title_not_blank,
          (article_iff req.item_type req.title).1 h.article_titled,
          (creators_iff 0 req.creators).1 h.creators_named,
          doi_warns l req.doi,
          isbn_warns req.isbn,
          (tags_iff 0 req.tags).1 h.tags_filled,
        )),
      )

  -- A request to update an item is valid exactly if its key is not blank, its type and its title are
  -- not blank where they are given, and each creator and tag is as in a request to write one.
  pub validate_item_update_request_iff :
      (req : ItemUpdateRequest)
      → ((validate_item_update_request l req).valid ≡ true) ↔ IsItemUpdate req
  unfolding validate_item_update_request
  validate_item_update_request_iff req =
      let parts =
        seven_parts (is_blank req.key) (given_blank req.item_type) (given_blank req.title)
          (codes "key") (codes "item key cannot be empty") (codes "item_type")
          (codes "item_type cannot be blank when provided") (codes "title")
          (codes "title cannot be blank when provided") (given (validate_creators 0) req.creators)
          (validate_doi l req.doi) (validate_isbn req.isbn) (given (validate_tags 0) req.tags) in
      (
        (λ h.
            let (keyed, typed, titled, creators, _, _, tags) = parts.0 h in
            record {
              keyed = keyed;
              type_not_blank = (given_blank_iff req.item_type).0 typed;
              title_not_blank = (given_blank_iff req.title).0 titled;
              creators_named = (given_creators_iff req.creators).0 creators;
              tags_filled = (given_tags_iff req.tags).0 tags;
            }),
        (λ h. parts.1 (
          h.keyed,
          (given_blank_iff req.item_type).1 h.type_not_blank,
          (given_blank_iff req.title).1 h.title_not_blank,
          (given_creators_iff req.creators).1 h.creators_named,
          doi_warns l req.doi,
          isbn_warns req.isbn,
          (given_tags_iff req.tags).1 h.tags_filled,
        )),
      )

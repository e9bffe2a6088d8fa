-- ===== src/Validation.antt =====
-- The checks of write requests (src/validation.rs), on the requests of src/models.rs.
pub mod Decimal
pub mod Acceptable
pub mod Items
pub mod Dois
use paperbridge.Prelude.{
  Bool, List, Option, [], false, is_empty, is_some, none, not, some, true, ℕ, ◌&&◌, ◌++◌, ◌+◌, ◌||◌,
  ◌∷◌,
}
use paperbridge.Text.{Text, codes, contains_char, eq_text, starts_with, trim}
use paperbridge.Book.Isbn.{normalize_isbn}
use paperbridge.Identifiers.{Lowercase, strip_doi_prefix, unwrap_or}
use paperbridge.Validation.Decimal.{to_decimal}

pub record CreatorInput : Type 0 where
  pub creator_type : Text
  pub first_name : Option Text
  pub last_name : Option Text
  pub name : Option Text

pub record TagInput : Type 0 where
  pub tag : Text
  pub tag_type : Option ℕ

pub record CollectionWriteRequest : Type 0 where
  pub name : Text
  pub parent_collection : Option Text

pub record CollectionUpdateRequest : Type 0 where
  pub key : Text
  pub version : Option ℕ
  pub name : Option Text
  pub parent_collection : Option Text
  pub clear_parent : Bool

pub record ItemWriteRequest : Type 0 where
  pub item_type : Text
  pub title : Option Text
  pub creators : List CreatorInput
  pub abstract_note : Option Text
  pub date : Option Text
  pub url : Option Text
  pub doi : Option Text
  pub isbn : Option Text
  pub tags : List TagInput
  pub collections : List Text
  pub extra : Option Text
  pub parent_item : Option Text

pub record ItemUpdateRequest : Type 0 where
  pub key : Text
  pub version : Option ℕ
  pub item_type : Option Text
  pub title : Option Text
  pub creators : Option (List CreatorInput)
  pub abstract_note : Option Text
  pub date : Option Text
  pub url : Option Text
  pub doi : Option Text
  pub isbn : Option Text
  pub tags : Option (List TagInput)
  pub collections : Option (List Text)
  pub extra : Option Text
  pub parent_item : Option Text
  pub clear_parent : Bool

pub record DeleteRequest : Type 0 where
  pub key : Text
  pub version : Option ℕ

pub data Level : Type 0 where
  error_level warning_level : Level

pub record Issue : Type 0 where
  pub level : Level
  pub field : Text
  pub message : Text

pub record Report : Type 0 where
  pub valid : Bool
  pub issues : List Issue

abbrev pub error : Text → Text → Issue
error field message = record { level = error_level; field = field; message = message }

abbrev pub warning : Text → Text → Issue
warning field message = record { level = warning_level; field = field; message = message }

abbrev pub is_error : Level → Bool
is_error error_level = true
is_error warning_level = false

abbrev pub any_error : List Issue → Bool
any_error [] = false
any_error (i ∷ is) = is_error i.level || any_error is

unfoldable pub report : List Issue → Report
report issues = record { valid = not (any_error issues); issues = issues }

-- `if c { issues.push(issue) }`.
abbrev pub push_if : Bool → Issue → List Issue
push_if true issue = issue ∷ []
push_if false issue = []

abbrev pub is_blank : Text → Bool
is_blank s = is_empty (trim s)

-- `if let Some(v) = o && v.trim().is_empty()`.
abbrev pub given_blank : Option Text → Bool
given_blank none = false
given_blank (some v) = is_blank v

-- `o.is_some_and(|v| !v.trim().is_empty())`.
abbrev pub given_text : Option Text → Bool
given_text none = false
given_text (some v) = not (is_blank v)

abbrev pub has_name : CreatorInput → Bool
has_name creator =
    given_text creator.name || (given_text creator.last_name || given_text creator.first_name)

abbrev pub at_index : Text → ℕ → Text
at_index name idx = name ++ (codes "[" ++ (to_decimal idx ++ codes "]"))

unfoldable pub validate_creator : CreatorInput → ℕ → List Issue
validate_creator creator idx =
    push_if (is_blank creator.creator_type) (
      error (at_index (codes "creators") idx ++ codes ".creator_type")
        (codes "creator_type cannot be empty"))
    ++ push_if (not (has_name creator)) (
        error (at_index (codes "creators") idx)
          (codes "creator must include either name or first/last name"))

unfoldable pub validate_creators : ℕ → List CreatorInput → List Issue
unfolding validate_creator
validate_creators idx [] = []
validate_creators idx (c ∷ cs) = validate_creator c idx ++ validate_creators (idx + 1) cs

unfoldable pub validate_tags : ℕ → List TagInput → List Issue
validate_tags idx [] = []
validate_tags idx (t ∷ ts) =
    push_if (is_blank t.tag)
      (error (at_index (codes "tags") idx) (codes "tag text cannot be empty"))
    ++ validate_tags (idx + 1) ts

-- `if let Some(xs) = o { … }`.
abbrev pub given {ℓ} : {A : Type ℓ} → (List A → List Issue) → Option (List A) → List Issue
given f none = []
given f (some xs) = f xs

module _ (l : Lowercase) where
  unfoldable pub looks_like_doi : Text → Bool
  looks_like_doi value =
      let stripped = strip_doi_prefix l value in
      starts_with (codes "10.") stripped && contains_char 0x2F stripped

  unfoldable pub validate_doi : Option Text → List Issue
  unfolding looks_like_doi
  validate_doi none = []
  validate_doi (some doi) =
      push_if (not (is_blank doi) && not (looks_like_doi doi))
        (warning (codes "doi") (codes "DOI does not match a common DOI pattern"))

abbrev pub looks_like_isbn : Text → Bool
looks_like_isbn value = is_some (normalize_isbn value)

unfoldable pub validate_isbn : Option Text → List Issue
validate_isbn none = []
validate_isbn (some isbn) = push_if (not (is_blank isbn) && not (looks_like_isbn isbn)) (
    warning (codes "isbn") (codes "ISBN is not a valid ISBN-10 or ISBN-13 (check digit or format)"))

unfoldable pub validate_collection_request : CollectionWriteRequest → Report
unfolding report
validate_collection_request req =
    report
      (push_if (is_blank req.name) (error (codes "name") (codes "collection name cannot be empty")))

unfoldable pub validate_collection_update_request : CollectionUpdateRequest → Report
unfolding report
validate_collection_update_request req = report (
    push_if (is_blank req.key) (error (codes "key") (codes "collection key cannot be empty"))
    ++ push_if (given_blank req.name)
        (error (codes "name") (codes "collection name cannot be blank when provided")))

module _ (l : Lowercase) where
  unfoldable pub validate_item_request : ItemWriteRequest → Report
  unfolding report validate_creators validate_tags validate_doi validate_isbn
  validate_item_request req = report (
      push_if (is_blank req.item_type)
        (error (codes "item_type") (codes "item_type cannot be empty"))
      ++ (push_if (given_blank req.title)
            (error (codes "title") (codes "title cannot be blank when provided"))
          ++ (push_if
                (eq_text req.item_type (codes "journalArticle")
                  && is_blank (unwrap_or req.title []))
                (error (codes "title") (codes "journalArticle items should include a title"))
              ++ (validate_creators 0 req.creators
                  ++ (validate_doi l req.doi
                      ++ (validate_isbn req.isbn ++ validate_tags 0 req.tags))))))

  unfoldable pub validate_item_update_request : ItemUpdateRequest → Report
  unfolding report validate_creators validate_tags validate_doi validate_isbn
  validate_item_update_request req = report (
      push_if (is_blank req.key) (error (codes "key") (codes "item key cannot be empty"))
      ++ (push_if (given_blank req.item_type)
            (error (codes "item_type") (codes "item_type cannot be blank when provided"))
          ++ (push_if (given_blank req.title)
                (error (codes "title") (codes "title cannot be blank when provided"))
              ++ (given (validate_creators 0) req.creators
                  ++ (validate_doi l req.doi
                      ++ (validate_isbn req.isbn ++ given (validate_tags 0) req.tags))))))

unfoldable pub validate_required_key : Text → Text → Report
unfolding report
validate_required_key key field =
    report (push_if (is_blank key) (error field (codes "key cannot be empty")))

-- `validate_delete_collection_request` and `validate_delete_item_request`.
unfoldable pub validate_delete_request : DeleteRequest → Report
unfolding validate_required_key
validate_delete_request req = validate_required_key req.key (codes "key")

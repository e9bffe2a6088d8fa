-- ===== src/Validation/Acceptable.antt =====
-- What makes each part of a request valid.
use paperbridge.Prelude.{
  All, List, Option, [], arith, false, none, refl, some, ◌++◌, ◌||◌, ◌∷◌, ◌≡◌, ◌⊎◌, Bool, not, true,
  ℕ, ◌&&◌, ◌+◌, ◌↔◌, Bool-cases, inl, inr, subst,
}
use paperbridge.Text.{Text, codes, eq_text, trim, trim_end, trim_start}
use paperbridge.Text.Prefix.{eq_text_sound}
use paperbridge.Identifiers.{Lowercase, unwrap_or}
use paperbridge.Validation.{
  CreatorInput, Issue, ItemUpdateRequest, ItemWriteRequest, TagInput, any_error, is_blank, at_index,
  error, given, given_blank, given_text, has_name, push_if, validate_creator, validate_creators,
  validate_doi, validate_isbn, validate_tags, warning,
}

-- A text with something in it but white space, and the same of a text that may be missing.
abbrev pub HasInk : Text → Type 0
HasInk s = is_blank s ≡ false

abbrev pub NotBlank : Option Text → Type 0
NotBlank none = Unit
NotBlank (some s) = HasInk s

abbrev pub HasText : Option Text → Type 0
HasText none = ⊥
HasText (some s) = HasInk s

-- A creator has a type, and a name in one of the three fields.
abbrev pub IsCreator : CreatorInput → Type 0
IsCreator c =
    HasInk c.creator_type × (HasText c.name ⊎ (HasText c.last_name ⊎ HasText c.first_name))

abbrev pub IsTag : TagInput → Type 0
IsTag t = HasInk t.tag

abbrev pub AllGiven : {A : Type 0} → (A → Type 0) → Option (List A) → Type 0
AllGiven P none = Unit
AllGiven P (some xs) = All P xs

-- The requests that are valid: the DOI and the ISBN do not matter.
pub record IsItem (req : ItemWriteRequest) : Type 0 where
  pub typed : HasInk req.item_type
  pub title_not_blank : NotBlank req.title
  pub article_titled : req.item_type ≡ codes "journalArticle" → HasText req.title
  pub creators_named : All IsCreator req.creators
  pub tags_filled : All IsTag req.tags

pub record IsItemUpdate (req : ItemUpdateRequest) : Type 0 where
  pub keyed : HasInk req.key
  pub type_not_blank : NotBlank req.item_type
  pub title_not_blank : NotBlank req.title
  pub creators_named : AllGiven IsCreator req.creators
  pub tags_filled : AllGiven IsTag req.tags

any_error-append : (xs ys : List Issue) → any_error (xs ++ ys) ≡ (any_error xs || any_error ys)
any_error-append [] ys = refl
any_error-append (x ∷ xs) ys = ground (arith, any_error-append xs ys)

any_error-push_if : (b : Bool) (f m : Text) → any_error (push_if b (error f m)) ≡ b
any_error-push_if true f m = refl
any_error-push_if false f m = refl

any_error-warn : (b : Bool) (f m : Text) → any_error (push_if b (warning f m)) ≡ false
any_error-warn true f m = refl
any_error-warn false f m = refl

given_text_iff : (o : Option Text) → (given_text o ≡ true) ↔ HasText o
given_text_iff none = ground arith
given_text_iff (some s) = ground arith

pub given_blank_iff : (o : Option Text) → (given_blank o ≡ false) ↔ NotBlank o
given_blank_iff none = ground arith
given_blank_iff (some s) = ground arith

unwrap_iff : (o : Option Text) → (is_blank (unwrap_or o []) ≡ false) ↔ HasText o
unfolding trim trim_start trim_end
unwrap_iff none = ground arith
unwrap_iff (some s) = ground arith

IsCreator-iff :
    (c : CreatorInput) (i : ℕ) → (any_error (validate_creator c i) ≡ false) ↔ IsCreator c
unfolding validate_creator
IsCreator-iff c i = ground (
  arith,
  any_error-append
      (push_if (is_blank c.creator_type) (
        error (at_index (codes "creators") i ++ codes ".creator_type")
          (codes "creator_type cannot be empty")))
      (push_if (not (has_name c)) (
        error (at_index (codes "creators") i)
          (codes "creator must include either name or first/last name"))),
  any_error-push_if (is_blank c.creator_type)
      (at_index (codes "creators") i ++ codes ".creator_type")
      (codes "creator_type cannot be empty"),
  any_error-push_if (not (has_name c)) (at_index (codes "creators") i)
      (codes "creator must include either name or first/last name"),
  given_text_iff c.name,
  given_text_iff c.last_name,
  given_text_iff c.first_name,
)

pub creators_iff :
    (i : ℕ) (cs : List CreatorInput)
    → (any_error (validate_creators i cs) ≡ false) ↔ All IsCreator cs
unfolding validate_creators
creators_iff i [] = ground arith
creators_iff i (c ∷ cs) =
    let head = IsCreator-iff c i in
    let tail = creators_iff (i + 1) cs in
    let both = any_error-append (validate_creator c i) (validate_creators (i + 1) cs) in
    (
      (λ h. (head.0 (ground (arith, both)), tail.0 (ground (arith, both)))),
      (λ h. ground (arith, both, head.1 h.0, tail.1 h.1)),
    )

pub tags_iff :
    (i : ℕ) (ts : List TagInput) → (any_error (validate_tags i ts) ≡ false) ↔ All IsTag ts
unfolding validate_tags
tags_iff i [] = ground arith
tags_iff i (t ∷ ts) =
    let here = error (at_index (codes "tags") i) (codes "tag text cannot be empty") in
    let tail = tags_iff (i + 1) ts in
    let one =
      any_error-push_if (is_blank t.tag) (at_index (codes "tags") i)
        (codes "tag text cannot be empty") in
    let both = any_error-append (push_if (is_blank t.tag) here) (validate_tags (i + 1) ts) in
    (
      (λ h. (ground (arith, both, one), tail.0 (ground (arith, both)))),
      (λ h. ground (arith, both, one, tail.1 h.1)),
    )

pub doi_warns : (l : Lowercase) (o : Option Text) → any_error (validate_doi l o) ≡ false
unfolding validate_doi
doi_warns l none = refl
doi_warns l (some doi) = any_error-warn _ _ _

pub isbn_warns : (o : Option Text) → any_error (validate_isbn o) ≡ false
unfolding validate_isbn
isbn_warns none = refl
isbn_warns (some isbn) = any_error-warn _ _ _

pub given_creators_iff :
    (o : Option (List CreatorInput))
    → (any_error (given (validate_creators 0) o) ≡ false) ↔ AllGiven IsCreator o
given_creators_iff none = ground arith
given_creators_iff (some cs) = creators_iff 0 cs

pub given_tags_iff :
    (o : Option (List TagInput))
    → (any_error (given (validate_tags 0) o) ≡ false) ↔ AllGiven IsTag o
given_tags_iff none = ground arith
given_tags_iff (some ts) = tags_iff 0 ts

-- A report without errors, of issues in two parts.
pub split_report :
    (xs ys : List Issue)
    → (any_error (xs ++ ys) ≡ false) ↔ ((any_error xs ≡ false) × (any_error ys ≡ false))
split_report xs ys = ground (arith, any_error-append xs ys)

pub split_push :
    (b : Bool) (f m : Text) (ys : List Issue)
    → (any_error (push_if b (error f m) ++ ys) ≡ false) ↔ ((b ≡ false) × (any_error ys ≡ false))
split_push true f m ys = ground arith
split_push false f m ys = ground arith

pub article_iff :
    (t : Text) (o : Option Text)
    → ((eq_text t (codes "journalArticle") && is_blank (unwrap_or o [])) ≡ false)
      ↔ (t ≡ codes "journalArticle" → HasText o)
article_iff t o = elim (Bool-cases (eq_text t (codes "journalArticle"))) [
  | inl same ↦
      let e = eq_text_sound t (codes "journalArticle") same in
      rw same ((λ h e'. (unwrap_iff o).0 h), (λ h. (unwrap_iff o).1 (h e)))
  | inr other ↦ rw other (
    (λ h e'. absurd (cc (subst (λ x. eq_text x (codes "journalArticle") ≡ false) e' other))),
    (λ h. refl),
  )
]

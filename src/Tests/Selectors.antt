-- ===== src/Tests/Selectors.antt =====
-- A selector, a release's tag and an error.
use paperbridge.Paper.Sections.Ids.{flush_section-fresh}
use paperbridge.Paper.Sections.{
  PaperSection, collapse_lines, flush_section, has_id, method, no_sections, section,
}
use paperbridge.Prelude.{
  All, List, [], arith, false, is_empty, refl, suc, true, zero, ℕ, ◌↔◌, ◌∷◌, ◌≡◌, ◌≤◌, none, some,
  ◌++◌,
}
use paperbridge.Text.{byte_len, codes, is_whitespace, len_utf8, Text}
use paperbridge.Validation.Decimal.{show_on, to_decimal}
use paperbridge.Paper.Selector.{Shape, array, evaluate, object, scalar}
use paperbridge.Paper.Selector.Paths.{
  IsPlain, IsPlainChar, Step, evaluate-selector_of, follow, index, key, selector_of,
}
use paperbridge.Update.{is_newer}
use paperbridge.Update.Order.{Above, FitsU64, is_newer-print, print_version}
use paperbridge.Errors.{ZoteroMcpError, api, from_error, parts_of}
use paperbridge.Errors.Redact.{Secrets, hide_all, max_error_bytes}
use paperbridge.Errors.Bounded.{MayRetry, from_error-bounds}

-- Three values: an object whose key leads to an array, and a scalar in that.
abbrev shape : ℕ → Shape ℕ
shape zero = object ((codes "authors", 1) ∷ [])
shape (suc zero) = array (2 ∷ 2 ∷ [])
shape (suc (suc n)) = scalar

abbrev path : List Step
path = key (codes "authors") ∷ index 1 ∷ []

path-IsPlain : All IsPlain path
unfolding is_whitespace
path-IsPlain = ((refl, plain), (omega arith, tt))
  where
    plain : All IsPlainChar (codes "authors")
    plain = ground arith

path_short : byte_len (selector_of path) ≤ 4096
unfolding byte_len len_utf8 to_decimal show_on
path_short = omega arith

evaluate-selector_of_example : evaluate shape 0 (selector_of path) ≡ follow shape 0 path
evaluate-selector_of_example = evaluate-selector_of shape 0 path path-IsPlain path_short

is_newer-print_example :
    (is_newer (b'v' ∷ print_version (1, (10, 0))) (print_version (1, (9, 3))) ≡ true)
    ↔ Above (1, (10, 0)) (1, (9, 3))
is_newer-print_example = is_newer-print (1, (10, 0)) (1, (9, 3)) small small'
  where
    small : FitsU64 (1, (10, 0))
    small = (omega arith, omega arith, omega arith)

    small' : FitsU64 (1, (9, 3))
    small' = (omega arith, omega arith, omega arith)

abbrev no_secrets : Secrets
no_secrets = record { environment = codes "hunter2" ∷ []; encode = λ s. s }

abbrev refused_by : ZoteroMcpError
refused_by = api 503 (codes "token=hunter2")

from_error-bounds_example :
    (byte_len (from_error no_secrets refused_by).reason ≤ max_error_bytes)
    × (byte_len (hide_all no_secrets [] (parts_of refused_by).reason) ≤ max_error_bytes
        → (from_error no_secrets refused_by).reason
          ≡ hide_all no_secrets [] (parts_of refused_by).reason)
    × (is_empty (from_error no_secrets refused_by).suggestions ≡ false)
    × (((from_error no_secrets refused_by).retryable ≡ true) ↔ MayRetry refused_by)
from_error-bounds_example = from_error-bounds no_secrets refused_by

-- Two sections that take the id of a third.
abbrev two_methods : List PaperSection
two_methods =
    section (codes "method") (codes "Method") (some method) 1 (codes "We") no_sections
    ∷ section (codes "method-2") (codes "Method") (some method) 1 [] no_sections
    ∷ []

flush_section-fresh_example :
    (id : Text) × (flush_section two_methods
        (some (codes "Methods", (method, codes "We measure." ∷ [])))
      ≡ some (
        two_methods
            ++ section id
                (codes "Methods")
                (some method)
                1
                (collapse_lines (codes "We measure." ∷ []))
                no_sections
              ∷ [],
        none,
      ))
    × (has_id two_methods id ≡ false)
flush_section-fresh_example =
    flush_section-fresh two_methods (codes "Methods") method (codes "We measure." ∷ [])
      (omega arith)

-- ===== src/Index/Upsert/Averages.antt =====
-- The averages of an index in use are those of one that is built.
use paperbridge.Prelude.{
  List, All, [], arith, foldl, length, length-replicate, refl, replicate, some, try_foldl, ℕ, ◌∙◌,
  ◌∷◌, ◌≡◌, ◌≤◌,
}
use paperbridge.Index.Params.{Floats, field_count}
use paperbridge.Index.Data.{Index}
use paperbridge.Index.Builder.{add_row, averages}
use paperbridge.Index.Builder.Build.{length-add_row}
use paperbridge.Index.Upsert.{add_lens, recalculate_average_field_lengths}

-- A row that is no longer than the totals is added without a panic.
add_lens-add_row :
    (totals lens : List ℕ)
    → length lens ≤ length totals
    → add_lens totals lens ≡ some (add_row totals lens)
unfolding add_lens add_row
add_lens-add_row [] [] h = refl
add_lens-add_row (t ∷ totals) [] h = refl
add_lens-add_row [] (len ∷ lens) h = absurd (omega arith)
add_lens-add_row (t ∷ totals) (len ∷ lens) h = rw (add_lens-add_row totals lens (omega arith)) refl

try_foldl-add_row :
    (n : ℕ) (totals : List ℕ) (rows : List (List ℕ))
    → length totals ≡ n
    → All (λ row. length row ≡ n) rows
    → try_foldl add_lens totals rows ≡ some (foldl add_row totals rows)
try_foldl-add_row n totals [] size h = refl
try_foldl-add_row n totals (row ∷ rows) size (wide, h) =
    rw (add_lens-add_row totals row (omega arith))
      (try_foldl-add_row n (add_row totals row) rows (length-add_row totals row ∙ size) h)

pub recalculate-averages :
    {fl : Floats} (index : Index fl)
    → All (λ row. length row ≡ field_count index.options) index.field_lens
    → recalculate_average_field_lengths index
      ≡ some (record index {
        avg_field_len =
            averages fl (field_count index.options) (length index.doc_ids) index.field_lens;
      })
unfolding recalculate_average_field_lengths averages
recalculate-averages index h =
    let n = field_count index.options in
    rw (try_foldl-add_row n (replicate n 0) index.field_lens (length-replicate n 0) h) refl

-- ===== src/Chunking/Windows.antt =====
-- `char_windows` of src/chunking.rs.
use paperbridge.Prelude.{
  All, All-concat, List, [], ap, arith, foldl, foldl_inv, if◌then◌else◌, is_empty, length,
  length-append, max, ℕ, ◌++◌, ◌+◌, ◌<◌, ◌==◌, ◌∷◌, ◌≡◌, ◌≤◌, append-nil, append_assoc, concat,
  concat-concat, is_empty→eq, is_empty→pos, sym, ◌∙◌,
}
use paperbridge.Text.{Text}
use paperbridge.Chunking.Pack.{Fits}

pub record Window : Type 0 where
  pub out : List Text
  pub current : Text
  pub len : ℕ

-- The body of the loop over the characters.
window_step : ℕ → Window → ℕ → Window
window_step max_chars w ch =
    if w.len == max_chars
    then record { out = w.out ++ w.current ∷ []; current = ch ∷ []; len = 1 }
    else record w { current = w.current ++ ch ∷ []; len = w.len + 1 }

window_chars : ℕ → Text → Window
unfolding window_step
window_chars max_chars = foldl (window_step max_chars) (record { out = []; current = []; len = 0 })

-- The last piece, if it holds a character.
close_window : Window → List Text
close_window w = if is_empty w.current then w.out else w.out ++ w.current ∷ []

unfoldable pub char_windows : Text → ℕ → List Text
unfolding window_chars close_window
char_windows text max_chars = close_window (window_chars (max max_chars 1) text)

record IsWindow (max_chars : ℕ) (w : Window) : Type 0 where
  out_fits : All (Fits max_chars) w.out
  counted : w.len ≡ length w.current
  bounded : w.len ≤ max_chars

push_window :
    (max_chars : ℕ) (w : Window)
    → 0 < w.len
    → IsWindow max_chars w
    → All (Fits max_chars) (w.out ++ w.current ∷ [])
push_window max_chars w pos h =
    All-concat (Fits max_chars) w.out w.current h.out_fits
      (λ e. absurd (omega (arith, ap length e, h.counted)), omega (arith, h.counted, h.bounded))

window_step-IsWindow :
    (max_chars : ℕ)
    → 0 < max_chars
    → (w : Window) (ch : ℕ) → IsWindow max_chars w
    → IsWindow max_chars (window_step max_chars w ch)
unfolding window_step
window_step-IsWindow max_chars pos w ch h =
    ground (arith, push_window max_chars w, length-append w.current (ch ∷ []))

window_chars-IsWindow :
    (max_chars : ℕ) (text : Text) → 0 < max_chars → IsWindow max_chars (window_chars max_chars text)
unfolding window_chars
window_chars-IsWindow max_chars text pos =
    foldl_inv (IsWindow max_chars) (window_step max_chars) (window_step-IsWindow max_chars pos) _
      text (omega arith)

close_window-Fits :
    (max_chars : ℕ) (w : Window) → IsWindow max_chars w → All (Fits max_chars) (close_window w)
unfolding close_window
close_window-Fits max_chars w h = ground (arith, push_window max_chars w, is_empty→pos w.current)

-- Each piece holds a character and keeps the limit.
pub char_windows-Fits :
    (text : Text) (max_chars : ℕ) → All (Fits (max max_chars 1)) (char_windows text max_chars)
unfolding char_windows
char_windows-Fits text max_chars =
    close_window-Fits (max max_chars 1) _
      (window_chars-IsWindow (max max_chars 1) text (omega arith))

window_text : Window → Text
window_text w = concat w.out ++ w.current

window_step-text :
    (max_chars : ℕ) (w : Window) (ch : ℕ)
    → window_text (window_step max_chars w ch) ≡ window_text w ++ ch ∷ []
unfolding window_step window_text
window_step-text max_chars w ch =
    ground (arith, concat-concat w.out w.current, append_assoc (concat w.out) w.current (ch ∷ []))

window_chars-text :
    (max_chars : ℕ) (w : Window) (text : Text)
    → window_text (foldl (window_step max_chars) w text) ≡ window_text w ++ text
window_chars-text max_chars w [] = sym (append-nil (window_text w))
window_chars-text max_chars w (c ∷ text) =
    simp
      (window_chars-text max_chars (window_step max_chars w c) text, window_step-text, append_assoc)

close_window-text : (w : Window) → concat (close_window w) ≡ window_text w
unfolding close_window window_text
close_window-text w =
    ground (arith, concat-concat w.out w.current, is_empty→eq w.current, append-nil (concat w.out))

-- The pieces put together are the text: no character is lost, added or moved.
pub concat-char_windows :
    (text : Text) (max_chars : ℕ) → concat (char_windows text max_chars) ≡ text
unfolding char_windows
concat-char_windows text max_chars =
    close_window-text (window_chars (max max_chars 1) text)
    ∙ unfold window_chars window_text in window_chars-text (max max_chars 1) _ text

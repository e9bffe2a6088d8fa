-- ===== src/Text.antt =====
-- Rust's `str` as the list of its characters, with the library functions that the program calls
-- on it: `trim`, `split_whitespace`, `lines`, `strip_prefix`, ASCII case, UTF-8 lengths.
pub mod Ink
pub mod Sizes
pub mod Prefix
pub mod Bytes
use Prim.Native.Char.{code}
use Prim.Native.String.{String}
use paperbridge.Prelude.{
  ℕ, ◌+◌, ◌-◌, List, [], ◌∷◌, map, Bool, true, false, ◌&&◌, ◌||◌, Option, none, some, ltb, leb,
  ◌==◌, if◌then◌else◌, is_empty,
}

abbrev pub Text : Type 0
Text = List ℕ

-- The code points of a literal.
abbrev pub codes : String → Text
codes String.[] = []
codes (String.◌∷◌ c s) = code c ∷ codes s

abbrev pub within : ℕ → ℕ → ℕ → Bool
within lo hi c = leb lo c && leb c hi

-- `char::is_whitespace`: the Unicode property White_Space.
unfoldable pub is_whitespace : ℕ → Bool
is_whitespace c =
    within 0x9 0xD c
    || c == 0x20
    || c == 0x85
    || c == 0xA0
    || c == 0x1680
    || within 0x2000 0x200A c
    || c == 0x2028
    || c == 0x2029
    || c == 0x202F
    || c == 0x205F
    || c == 0x3000

unfoldable pub trim_start : Text → Text
trim_start [] = []
trim_start (c ∷ s) = let rest = trim_start s in if is_whitespace c then rest else c ∷ s

-- A character in front of a text whose end is trimmed.
unfoldable pub push_trimmed : ℕ → Text → Text
push_trimmed c [] = if is_whitespace c then [] else c ∷ []
push_trimmed c (d ∷ r) = c ∷ d ∷ r

unfoldable pub trim_end : Text → Text
trim_end [] = []
trim_end (c ∷ s) = push_trimmed c (trim_end s)

unfoldable pub trim : Text → Text
trim s = trim_end (trim_start s)

-- A word in front of others, unless it is empty.
unfoldable pub push_word : Text → List Text → List Text
push_word [] ws = ws
push_word (c ∷ w) ws = (c ∷ w) ∷ ws

-- The word that the text begins with (empty if it begins with whitespace), and those behind it.
unfoldable pub words : Text → Text × List Text
words [] = ([], [])
words (c ∷ s) =
    let (w, ws) = words s in if is_whitespace c then ([], push_word w ws) else (c ∷ w, ws)

unfoldable pub split_whitespace : Text → List Text
split_whitespace s = let (w, ws) = words s in push_word w ws

-- The parts between line feeds.
unfoldable pub line_pieces : Text → Text × List Text
line_pieces [] = ([], [])
line_pieces (c ∷ s) =
    let (l, ls) = line_pieces s in if c == b'\n' then ([], l ∷ ls) else (c ∷ l, ls)

unfoldable pub strip_cr : Text → Text
strip_cr [] = []
strip_cr (c ∷ []) = if c == b'\r' then [] else c ∷ []
strip_cr (c ∷ d ∷ s) = c ∷ strip_cr (d ∷ s)

-- A line that a line feed ends loses a carriage return at its end; an empty rest is no line.
unfoldable pub end_lines : Text → List Text → List Text
end_lines l [] = if is_empty l then [] else l ∷ []
end_lines l (m ∷ ls) = strip_cr l ∷ end_lines m ls

-- `str::lines`.
unfoldable pub lines : Text → List Text
lines s = let (l, ls) = line_pieces s in end_lines l ls

abbrev pub eq_text : Text → Text → Bool
eq_text [] [] = true
eq_text [] (d ∷ t) = false
eq_text (c ∷ s) [] = false
eq_text (c ∷ s) (d ∷ t) = c == d && eq_text s t

-- `s.strip_prefix(p)`, the prefix first.
abbrev pub strip_prefix : Text → Text → Option Text
strip_prefix [] s = some s
strip_prefix (p ∷ ps) [] = none
strip_prefix (p ∷ ps) (c ∷ s) = let rest = strip_prefix ps s in if p == c then rest else none

abbrev pub starts_with : Text → Text → Bool
starts_with [] s = true
starts_with (p ∷ ps) [] = false
starts_with (p ∷ ps) (c ∷ s) = p == c && starts_with ps s

-- `s.contains(p)`, the pattern first.
abbrev pub contains : Text → Text → Bool
contains p [] = starts_with p []
contains p (c ∷ s) = starts_with p (c ∷ s) || contains p s

abbrev pub contains_char : ℕ → Text → Bool
contains_char c [] = false
contains_char c (d ∷ s) = c == d || contains_char c s

abbrev pub is_ascii_digit : ℕ → Bool
is_ascii_digit c = within b'0' b'9' c

unfoldable pub ascii_lower : ℕ → ℕ
ascii_lower c = if within b'A' b'Z' c then c + 32 else c

unfoldable pub ascii_upper : ℕ → ℕ
ascii_upper c = if within b'a' b'z' c then c - 32 else c

abbrev pub to_ascii_lowercase : Text → Text
to_ascii_lowercase = map ascii_lower

abbrev pub to_ascii_uppercase : Text → Text
to_ascii_uppercase = map ascii_upper

-- `char::len_utf8`, and `str::len`.
unfoldable pub len_utf8 : ℕ → ℕ
len_utf8 c = if ltb c 0x80 then 1 else if ltb c 0x800 then 2 else if ltb c 0x10000 then 3 else 4

unfoldable pub byte_len : Text → ℕ
byte_len [] = 0
byte_len (c ∷ s) = len_utf8 c + byte_len s

-- `s.split_once(c)`.
abbrev pub before_after : ℕ → Option (Text × Text) → Option (Text × Text)
before_after c none = none
before_after c (some (a, b)) = some (c ∷ a, b)

unfoldable pub split_once : ℕ → Text → Option (Text × Text)
split_once d [] = none
split_once d (c ∷ s) =
    let later = before_after c (split_once d s) in if c == d then some ([], s) else later

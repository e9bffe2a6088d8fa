-- ===== src/Hits/Enrich/Hash.antt =====
-- `short_hash` of src/hit_enrich.rs: FNV-1a on the bytes of a text, as 48 bits of hex.
use paperbridge.Prelude.{
  All, All-concat, [], arith, foldl, if◌then◌else◌, length, length-append, ltb, refl, suc, true,
  zero, ℕ, ◌%◌, ◌*◌, ◌++◌, ◌+◌, ◌/◌, ◌^◌, ◌||◌, ◌∷◌, ◌≡◌,
}
use paperbridge.Text.{Text, is_ascii_digit, within}
use Prim.Native.Nat.{bit_xor}

-- The bytes of a character in UTF-8.
unfoldable pub utf8_bytes : ℕ → Text
utf8_bytes c =
    if ltb c 0x80
    then c ∷ []
    else if ltb c 0x800
    then (0xC0 + c / 64) ∷ (0x80 + c % 64) ∷ []
    else if ltb c 0x10000
    then (0xE0 + c / 4096) ∷ (0x80 + c / 64 % 64) ∷ (0x80 + c % 64) ∷ []
    else (0xF0 + c / 262144) ∷ (0x80 + c / 4096 % 64) ∷ (0x80 + c / 64 % 64) ∷ (0x80 + c % 64) ∷ []

unfoldable pub bytes_of : Text → Text
unfolding utf8_bytes
bytes_of [] = []
bytes_of (c ∷ s) = utf8_bytes c ++ bytes_of s

abbrev pub offset_basis : ℕ
offset_basis = 0xcbf29ce484222325

abbrev pub fnv_prime : ℕ
fnv_prime = 0x100000001b3

abbrev pub hash_step : ℕ → ℕ → ℕ
hash_step h b = bit_xor h b * fnv_prime % 2 ^ 64

abbrev hex_digit : ℕ → ℕ
hex_digit d = if ltb d 10 then 48 + d else 87 + d

-- `{:0kx}` of a number below 16^k.
unfoldable pub hex_padded : ℕ → ℕ → Text
hex_padded zero n = []
hex_padded (suc k) n = hex_padded k (n / 16) ++ hex_digit (n % 16) ∷ []

unfoldable pub short_hash : Text → Text
unfolding bytes_of hex_padded
short_hash s = hex_padded 12 (foldl hash_step offset_basis (bytes_of s) % 2 ^ 48)

abbrev IsHexDigit : ℕ → Type 0
IsHexDigit c = (is_ascii_digit c || within b'a' b'f' c) ≡ true

hex_padded-digits : (k n : ℕ) → (length (hex_padded k n) ≡ k) × All IsHexDigit (hex_padded k n)
unfolding hex_padded
hex_padded-digits zero n = (refl, tt)
hex_padded-digits (suc k) n =
    let (size, digits) = hex_padded-digits k (n / 16) in
    let total = length-append (hex_padded k (n / 16)) (hex_digit (n % 16) ∷ []) in
    (
      omega arith,
      All-concat IsHexDigit (hex_padded k (n / 16)) (hex_digit (n % 16)) digits (ground arith),
    )

-- The hash of a text is twelve lower-case hexadecimal digits.
pub short_hash-digits : (s : Text) → (length (short_hash s) ≡ 12) × All IsHexDigit (short_hash s)
unfolding short_hash
short_hash-digits s = hex_padded-digits 12 (foldl hash_step offset_basis (bytes_of s) % 2 ^ 48)

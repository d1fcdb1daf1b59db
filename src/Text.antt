-- ===== src/Text.antt =====
-- Rust strings (`str`, `String`) as their sequences of code points, with their UTF-8 bytes, and
-- the byte and character tests that the crates share.
pub mod Decimal
pub mod Digest
pub mod Plain
pub mod Split
pub mod Unicode
use Prim.Native.Char.{code}
use Prim.Native.String.{String}
use my_vault.Base.{
  nat_eq, ℕ, ◌+◌, ◌/◌, ◌%◌, ◌≡◌, refl, Bool, false, ◌&&◌, ◌||◌, List, [], ◌∷◌, ◌++◌, ltb, leb, ◌==◌,
  if◌then◌else◌, length, all, any,
}

-- The code points of a `str`, each below 0x110000.
abbrev pub Text : Type 0
Text = List ℕ

-- A literal.
abbrev pub codes : String → Text
codes String.[] = []
codes (String.◌∷◌ c s) = code c ∷ codes s

-- The UTF-8 encoding of one `char`.
pub utf8 : ℕ → List ℕ
utf8 c =
    if ltb c 0x80
    then c ∷ []
    else if ltb c 0x800
    then (0xC0 + c / 64) ∷ (0x80 + c % 64) ∷ []
    else if ltb c 0x10000
    then (0xE0 + c / 4096) ∷ (0x80 + c / 64 % 64) ∷ (0x80 + c % 64) ∷ []
    else (0xF0 + c / 262144) ∷ (0x80 + c / 4096 % 64) ∷ (0x80 + c / 64 % 64) ∷ (0x80 + c % 64) ∷ []

-- `str::bytes`
unfoldable pub bytes : Text → List ℕ
unfolding utf8
bytes [] = []
bytes (c ∷ s) = utf8 c ++ bytes s

-- `str::len`, in bytes
unfoldable pub len : Text → ℕ
unfolding bytes
len s = length (bytes s)

-- `char::is_control`: the general category Cc
unfoldable pub is_control : ℕ → Bool
is_control c = ltb c 0x20 || (leb 0x7F c && leb c 0x9F)

unfoldable pub is_ascii_control : ℕ → Bool
is_ascii_control c = ltb c 0x20 || c == 0x7F

unfoldable pub is_ascii_digit : ℕ → Bool
is_ascii_digit b = leb b'0' b && leb b b'9'

unfoldable pub is_ascii_lowercase : ℕ → Bool
is_ascii_lowercase b = leb b'a' b && leb b b'z'

unfoldable pub is_ascii_uppercase : ℕ → Bool
is_ascii_uppercase b = leb b'A' b && leb b b'Z'

unfoldable pub is_ascii_alphanumeric : ℕ → Bool
unfolding is_ascii_digit is_ascii_lowercase is_ascii_uppercase
is_ascii_alphanumeric b = is_ascii_digit b || is_ascii_lowercase b || is_ascii_uppercase b

-- `is_lower_hex_64`, `is_lower_hex_hash`
unfoldable pub is_lower_hex_64 : Text → Bool
unfolding len is_ascii_digit
is_lower_hex_64 value =
    len value == 64 && all (λ b. is_ascii_digit b || (leb b'a' b && leb b b'f')) (bytes value)

-- `is_remote_id`
unfoldable pub is_remote_id : Text → Bool
unfolding len is_ascii_alphanumeric
is_remote_id value =
    leb 1 (len value)
    && leb (len value) 512
    && all (λ b. is_ascii_alphanumeric b || b == b'-' || b == b'_' || b == b'.') (bytes value)

-- A character in front of the first piece.
unfoldable pub cons_head : ℕ → List Text → List Text
cons_head c [] = (c ∷ []) ∷ []
cons_head c (x ∷ xs) = (c ∷ x) ∷ xs

-- `str::split` at one character: never empty.
unfoldable pub split : ℕ → Text → List Text
unfolding cons_head
split sep [] = [] ∷ []
split sep (c ∷ s) = if c == sep then [] ∷ split sep s else cons_head c (split sep s)

-- `slice::join`
unfoldable pub join : Text → List Text → Text
join sep [] = []
join sep (x ∷ []) = x
join sep (x ∷ y ∷ ys) = x ++ (sep ++ join sep (y ∷ ys))

-- `str::starts_with` and `str::ends_with` of one character
unfoldable pub starts_with : ℕ → Text → Bool
starts_with c [] = false
starts_with c (d ∷ s) = d == c

unfoldable pub ends_with : ℕ → Text → Bool
ends_with c [] = false
ends_with c (d ∷ []) = d == c
ends_with c (d ∷ e ∷ s) = ends_with c (e ∷ s)

-- `str::contains` of one character
abbrev pub contains : ℕ → Text → Bool
contains c s = any (λ d. d == c) s

split_test : split b'/' (codes "ab//c") ≡ codes "ab" ∷ [] ∷ codes "c" ∷ []
unfolding split
split_test = refl

len_test : len (0x0E01 ∷ b'a' ∷ 0x1F600 ∷ []) ≡ 8
unfolding len
len_test = refl

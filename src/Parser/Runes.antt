-- ===== src/Parser/Runes.antt =====
-- The rune tests that the parsers make. Each parser walks its input byte by byte, so the runes it
-- sees are the code points 0 to 255, and `string(r)` is the UTF-8 text of such a code point.
use makisu.Base.{
  ℕ, ◌+◌, ◌/◌, ◌%◌, Bool, ◌||◌, ◌&&◌, [], ◌∷◌, ◌≡◌, true, arith, ltb, leb, ◌==◌, if◌then◌else◌,
  Bytes,
}

abbrev within : ℕ → ℕ → ℕ → Bool
within lo hi c = leb lo c && leb c hi

-- `unicode.IsSpace` below 256.
unfoldable pub is_space : ℕ → Bool
is_space r = within 9 13 r || r == b' ' || r == 0x85 || r == 0xA0

-- `unicode.IsLetter` below 256.
unfoldable pub is_letter : ℕ → Bool
is_letter r =
    within b'a' b'z' r
    || within b'A' b'Z' r
    || r == 0xAA
    || r == 0xB5
    || r == 0xBA
    || within 0xC0 0xD6 r
    || within 0xD8 0xF6 r
    || within 0xF8 0xFF r

-- `unicode.IsNumber` below 256.
unfoldable pub is_number : ℕ → Bool
is_number r = within b'0' b'9' r || r == 0xB2 || r == 0xB3 || r == 0xB9 || within 0xBC 0xBE r

-- `validKeyRune(r) == nil`
unfoldable pub valid_key_rune : ℕ → Bool
unfolding is_letter is_number
valid_key_rune r = is_letter r || is_number r || r == b'-' || r == b'_' || r == b'.'

-- `string(r)`
unfoldable pub rune_bytes : ℕ → Bytes
rune_bytes r = if ltb r 0x80 then r ∷ [] else (0xC0 + r / 64) ∷ (0x80 + r % 64) ∷ []

unfoldable pub is_ascii : ℕ → Bool
is_ascii r = ltb r 0x80

pub rune_bytes_ascii : (r : ℕ) → is_ascii r ≡ true → rune_bytes r ≡ r ∷ []
unfolding rune_bytes is_ascii
rune_bytes_ascii r h = ground arith

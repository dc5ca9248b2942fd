-- ===== src/Parser/Variables/Template.antt =====
-- Texts of literal pieces and variables that are not nested, and what they stand for.
use makisu.Base.{
  ℕ, Bool, true, false, not, ◌&&◌, some, none, List, [], ◌∷◌, ◌++◌, ◌≡◌, ◌==◌, if◌then◌else◌, Bytes,
  all, Dict, lookup,
}
use makisu.Parser.Runes.{valid_key_rune, rune_bytes}
use makisu.Parser.Variables.{get_or}

-- The text that the bytes are copied to: `string(rune(b))` of each.
abbrev pub copied : Bytes → Bytes
copied [] = []
copied (c ∷ cs) = rune_bytes c ++ copied cs

-- A piece of a text: literal bytes, `\$`, a backslash before another byte, `$name`, `${name}`,
-- `${name:-text}` and `${name:+text}`.
pub data Segment : Type 0 where
  literal : Bytes → Segment
  escaped_dollar : Segment
  backslash : ℕ → Segment
  bare_name : ℕ → Bytes → Segment
  braced : Bytes → Segment
  default : ℕ → Bytes → ℕ → Bytes → Segment
  alternative : ℕ → Bytes → ℕ → Bytes → Segment

abbrev pub literal_byte : ℕ → Bool
literal_byte c = not (c == b'$') && not (c == b'\\')

abbrev pub name_byte : ℕ → Bool
name_byte c = not (c == b'$') && not (c == b':') && not (c == b'}')

abbrev pub default_byte : ℕ → Bool
default_byte c = not (c == b'}') && not (c == b'\\')

-- The text that follows does not go on with a key rune, so that a bare name ends there.
abbrev pub ends_name : Bytes → Bool
ends_name [] = true
ends_name (c ∷ cs) = not (valid_key_rune c)

abbrev pub spell : Segment → Bytes → Bytes
spell (literal bs) rest = bs ++ rest
spell escaped_dollar rest = b'\\' ∷ b'$' ∷ rest
spell (backslash c) rest = b'\\' ∷ c ∷ rest
spell (bare_name c cs) rest = b'$' ∷ c ∷ (cs ++ rest)
spell (braced n) rest = b'$' ∷ b'{' ∷ (n ++ (b'}' ∷ rest))
spell (default c cs d ds) rest = b'$' ∷ b'{' ∷ c ∷ (cs ++ (b':' ∷ b'-' ∷ d ∷ (ds ++ (b'}' ∷ rest))))
spell (alternative c cs d ds) rest =
    b'$' ∷ b'{' ∷ c ∷ (cs ++ (b':' ∷ b'+' ∷ d ∷ (ds ++ (b'}' ∷ rest))))

abbrev pub IsSegment : Segment → Bytes → Type 0
IsSegment (literal bs) rest = all literal_byte bs ≡ true
IsSegment escaped_dollar rest = Unit
IsSegment (backslash c) rest = (c == b'$') ≡ false
IsSegment (bare_name c cs) rest =
    (valid_key_rune c && all valid_key_rune cs && ends_name rest) ≡ true
IsSegment (braced n) rest = all name_byte n ≡ true
IsSegment (default c cs d ds) rest =
    (name_byte c && all name_byte cs && default_byte d && all default_byte ds) ≡ true
IsSegment (alternative c cs d ds) rest =
    (name_byte c && all name_byte cs && default_byte d && all default_byte ds) ≡ true

-- What a piece stands for under the variables.
abbrev pub meaning : Dict Bytes → Segment → Bytes
meaning vars (literal bs) = copied bs
meaning vars escaped_dollar = b'$' ∷ []
meaning vars (backslash c) = b'\\' ∷ rune_bytes c
meaning vars (bare_name c cs) = let n = copied (c ∷ cs) in get_or (lookup n vars) (b'$' ∷ n)
meaning vars (braced n) = get_or (lookup (copied n) vars) (b'$' ∷ b'{' ∷ (copied n ++ b'}' ∷ []))
meaning vars (default c cs d ds) = get_or (lookup (copied (c ∷ cs)) vars) (copied (d ∷ ds))
meaning vars (alternative c cs d ds) = elim (lookup (copied (c ∷ cs)) vars) [
  | none ↦ []
  | some _ ↦ copied (d ∷ ds)
]

-- The pieces, and a backslash behind them or none.
abbrev pub template : List Segment → Bool → Bytes
template [] final = if final then b'\\' ∷ [] else []
template (t ∷ ts) final = spell t (template ts final)

abbrev pub IsTemplate : List Segment → Bool → Type 0
IsTemplate [] final = Unit {0}
IsTemplate (t ∷ ts) final = IsSegment t (template ts final) × IsTemplate ts final

abbrev pub expand : Dict Bytes → List Segment → Bytes
expand vars [] = []
expand vars (t ∷ ts) = meaning vars t ++ expand vars ts

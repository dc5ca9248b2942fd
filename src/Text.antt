-- ===== src/Text.antt =====
-- The functions of Go's `strings` and `strconv` that the program calls, on ASCII texts: letter case
-- and blanks are those of ASCII, and every other byte is left as it is.
use makisu.Base.{
  ℕ, ◌+◌, ◌-◌, ◌*◌, Bool, true, false, not, ◌&&◌, ◌||◌, Option, some, none, List, [], ◌∷◌, ◌++◌,
  map, ◌≡◌, arith, ◌==◌, ltb, leb, if◌then◌else◌, Bytes, bytes_eq, all,
}

-- Go's `int`, 64 bits wide; `negsuc n` is -(n + 1).
pub data ℤ : Type 0 where
  pos : ℕ → ℤ
  negsuc : ℕ → ℤ

-- `unicode.IsSpace`
is_blank : ℕ → Bool
is_blank c = (leb 9 c && leb c 13) || c == b' '

-- `\s` in a regular expression.
unfoldable pub is_regexp_space : ℕ → Bool
is_regexp_space c = c == 9 || c == 10 || c == 12 || c == 13 || c == b' '

-- `strings.TrimLeftFunc`
unfoldable pub trim_left : (ℕ → Bool) → Bytes → Bytes
trim_left p [] = []
trim_left p (c ∷ cs) = let rest = trim_left p cs in if p c then rest else c ∷ cs

-- `strings.TrimRightFunc`
unfoldable pub trim_right : (ℕ → Bool) → Bytes → Bytes
trim_right p [] = []
trim_right p (c ∷ cs) =
    let rest = trim_right p cs in if p c && bytes_eq rest [] then [] else c ∷ rest

unfoldable pub trim : (ℕ → Bool) → Bytes → Bytes
unfolding trim_left trim_right
trim p s = trim_right p (trim_left p s)

unfoldable pub trim_space : Bytes → Bytes
unfolding trim is_blank
trim_space s = trim is_blank s

-- The loop of `strings.Fields`, after the bytes of a field.
fields_from : Bytes → Bytes → List Bytes
unfolding is_blank
fields_from field [] = if bytes_eq field [] then [] else field ∷ []
fields_from field (c ∷ cs) =
    let rest = fields_from (if is_blank c then [] else field ++ c ∷ []) cs in
    if is_blank c && not (bytes_eq field []) then field ∷ rest else rest

unfoldable pub fields : Bytes → List Bytes
unfolding fields_from
fields s = fields_from [] s

-- `strings.Split(s, string(sep))` for a separator of one byte, after the bytes of a part.
unfoldable pub split_from : ℕ → Bytes → Bytes → List Bytes
split_from sep part [] = part ∷ []
split_from sep part (c ∷ cs) =
    let rest = split_from sep (if c == sep then [] else part ++ c ∷ []) cs in
    if c == sep then part ∷ rest else rest

unfoldable pub split : ℕ → Bytes → List Bytes
unfolding split_from
split sep s = split_from sep [] s

-- `strings.Join`
unfoldable pub join : Bytes → List Bytes → Bytes
join sep [] = []
join sep (s ∷ []) = s
join sep (s ∷ t ∷ ss) = s ++ sep ++ join sep (t ∷ ss)

-- `s[len(prefix):]` if `strings.HasPrefix(s, prefix)`.
unfoldable pub after_prefix : Bytes → Bytes → Option Bytes
after_prefix [] s = some s
after_prefix (p ∷ ps) [] = none
after_prefix (p ∷ ps) (c ∷ cs) = if p == c then after_prefix ps cs else none

unfoldable pub has_prefix : Bytes → Bytes → Bool
unfolding after_prefix
has_prefix s prefix = elim (after_prefix prefix s) [ none ↦ false | some _ ↦ true ]

to_lower_byte : ℕ → ℕ
to_lower_byte c = if leb b'A' c && leb c b'Z' then c + 32 else c

unfoldable pub to_lower : Bytes → Bytes
unfolding to_lower_byte
to_lower s = map to_lower_byte s

unfoldable pub equal_fold : Bytes → Bytes → Bool
unfolding to_lower
equal_fold s t = bytes_eq (to_lower s) (to_lower t)

-- The texts before the first such byte and behind it.
unfoldable pub cut : ℕ → Bytes → Option (Bytes × Bytes)
cut b [] = none
cut b (c ∷ cs) =
    let rest = cut b cs in
    if c == b then some ([], cs) else elim rest [ none ↦ none | some (x, y) ↦ some (c ∷ x, y) ]

-- The first such byte is found behind a text without it.
pub cut_found :
    (b : ℕ) (before behind : Bytes)
    → all (λ c. not (c == b)) before ≡ true
    → cut b (before ++ (b ∷ behind)) ≡ some (before, behind)
unfolding cut
cut_found b [] behind h = ground arith
cut_found b (c ∷ before) behind h = ground (arith, cut_found b before behind)

-- `strings.Count` of one byte.
unfoldable pub count : ℕ → Bytes → ℕ
count b [] = 0
count b (c ∷ cs) = (if c == b then 1 else 0) + count b cs

-- The value of decimal digits, after the value of those before.
digits_value : ℕ → Bytes → Option ℕ
digits_value n [] = some n
digits_value n (c ∷ cs) =
    let rest = digits_value (n * 10 + (c - b'0')) cs in
    if leb b'0' c && leb c b'9' then rest else none

unsigned : Bytes → Option ℕ
unfolding digits_value
unsigned [] = none
unsigned (c ∷ cs) = digits_value 0 (c ∷ cs)

abbrev bound : ℕ
bound = 0x8000_0000_0000_0000

abbrev positive : ℕ → Option ℤ
positive n = if ltb n bound then some (pos n) else none

abbrev negative : ℕ → Option ℤ
negative n = if n == 0 then some (pos 0) else if leb n bound then some (negsuc (n - 1)) else none

abbrev bind_ℕ : Option ℕ → (ℕ → Option ℤ) → Option ℤ
bind_ℕ none f = none
bind_ℕ (some n) f = f n

-- `strconv.Atoi`
unfoldable pub atoi : Bytes → Option ℤ
unfolding unsigned
atoi [] = none
atoi (c ∷ cs) =
    if c == b'-'
    then bind_ℕ (unsigned cs) negative
    else if c == b'+'
    then bind_ℕ (unsigned cs) positive
    else bind_ℕ (unsigned (c ∷ cs)) positive

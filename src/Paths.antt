-- ===== src/Paths.antt =====
-- lib/pathutils/path.go, and what the program uses of the packages path and path/filepath, on Unix.
use makisu.Base.{
  ℕ, Bool, true, false, not, ◌&&◌, ◌||◌, Option, some, none, List, [], ◌∷◌, ◌++◌, ◌==◌,
  if◌then◌else◌, Bytes, bytes_eq, codes, last?,
}
use mathlib.Core.List.{reverse}
use makisu.Text.{split, join, trim, trim_left, trim_right, after_prefix, has_prefix}

abbrev pub is_slash : ℕ → Bool
is_slash c = c == b'/'

abbrev pub slash : Bytes
slash = b'/' ∷ []

-- `strings.HasSuffix(p, "/")`
abbrev pub ends_in_slash : Bytes → Bool
ends_in_slash p = elim (last? p) [ none ↦ false | some c ↦ is_slash c ]

-- One component of `path.Clean`, onto those kept so far, the last one first.
unfoldable pub clean_step : Bool → List Bytes → Bytes → List Bytes
unfolding bytes_eq
clean_step rooted out c =
    if bytes_eq c [] || bytes_eq c (codes ".")
    then out
    else if bytes_eq c (codes "..")
    then (elim out [
      | [] ↦ if rooted then [] else c ∷ []
      | top ∷ rest ↦ if not rooted && bytes_eq top (codes "..") then c ∷ top ∷ rest else rest
    ])
    else c ∷ out

unfoldable pub clean_parts : Bool → List Bytes → List Bytes → List Bytes
unfolding clean_step
clean_parts rooted out [] = reverse out
clean_parts rooted out (c ∷ cs) = clean_parts rooted (clean_step rooted out c) cs

-- `filepath.IsAbs`
abbrev pub is_abs : Bytes → Bool
is_abs [] = false
is_abs (c ∷ cs) = c == b'/'

abbrev or_dot : Bytes → Bytes
or_dot [] = codes "."
or_dot (c ∷ cs) = c ∷ cs

-- `path.Clean`
unfoldable pub clean : Bytes → Bytes
unfolding clean_parts split join
clean p =
    if is_abs p
    then b'/' ∷ join slash (clean_parts true [] (split b'/' p))
    else or_dot (join slash (clean_parts false [] (split b'/' p)))

abbrev not_empty : List Bytes → List Bytes
not_empty [] = []
not_empty ([] ∷ ps) = not_empty ps
not_empty ((c ∷ cs) ∷ ps) = (c ∷ cs) ∷ not_empty ps

-- `path.Join`
unfoldable pub join_path : List Bytes → Bytes
unfolding clean join
join_path ps = elim (not_empty ps) [ [] ↦ [] | q ∷ qs ↦ clean (join slash (q ∷ qs)) ]

-- `filepath.Split`: the text up to the last slash, and the text behind it.
unfoldable pub split_file : Bytes → Bytes × Bytes
split_file [] = ([], [])
split_file (c ∷ cs) =
    let (dir, file) = split_file cs in
    if bytes_eq dir [] && not (c == b'/') then (dir, c ∷ file) else (c ∷ dir, file)

-- `path.Dir`
unfoldable pub dir : Bytes → Bytes
unfolding split_file clean
dir p = clean (split_file p).0

-- `path.Base`
unfoldable pub base : Bytes → Bytes
unfolding split_file trim_right
base [] = codes "."
base (c ∷ cs) = elim (trim_right is_slash (c ∷ cs)) [
  | [] ↦ slash
  | d ∷ ds ↦ (split_file (d ∷ ds)).1
]

-- `AbsPath`
unfoldable pub abs_path : Bytes → Bytes
unfolding join_path trim_right
abs_path p = join_path (slash ∷ trim_right is_slash p ∷ [])

-- `RelPath`
unfoldable pub rel_path : Bytes → Bytes
unfolding trim_left
rel_path p = trim_left is_slash p

-- `SplitPath`; nil is the empty list.
unfoldable pub split_path : Bytes → List Bytes
unfolding trim split
split_path p = elim (trim is_slash p) [ [] ↦ [] | c ∷ cs ↦ split b'/' (c ∷ cs) ]

-- `TrimRoot`; `none` is its error.
unfoldable pub trim_root : Bytes → Bytes → Option Bytes
unfolding after_prefix abs_path
trim_root p root = elim (after_prefix root p) [ none ↦ none | some rest ↦ some (abs_path rest) ]

-- `IsDescendantOfAny`
unfoldable pub is_descendant_of_any : Bytes → List Bytes → Bool
unfolding abs_path dir has_prefix
is_descendant_of_any p [] = false
is_descendant_of_any p (ancestor ∷ ancestors) =
    let q = abs_path p in
    let a = abs_path ancestor in
    bytes_eq q a
    || bytes_eq a slash
    || has_prefix (dir q ++ slash) (a ++ slash)
    || is_descendant_of_any p ancestors

-- ===== src/Image.antt =====
-- lib/docker/image/image_name.go: the names of images.
pub mod Spelled
use makisu.Base.{
  take, drop, ℕ, zero, suc, ◌+◌, ◌-◌, Bool, true, false, not, ◌&&◌, ◌||◌, Option, some, none, List,
  [], ◌∷◌, ◌++◌, ◌==◌, ltb, leb, if◌then◌else◌, Bytes, bytes_eq, codes, all, length,
}
use makisu.Text.{cut, count}

pub record Name : Type 0 where
  pub registry : Bytes
  pub repository : Bytes
  pub tag : Bytes

abbrev pub docker_hub_registry : Bytes
docker_hub_registry = codes "index.docker.io"

abbrev pub docker_hub_namespace : Bytes
docker_hub_namespace = codes "library"

abbrev pub scratch : Bytes
scratch = codes "scratch"

-- `strings.LastIndex`, plus one: 0 where the byte does not occur.
last_index : ℕ → Bytes → ℕ
last_index c [] = 0
last_index c (x ∷ xs) =
    let rest = last_index c xs in if not (rest == 0) then suc rest else if x == c then 1 else 0

-- `s[:n]` and `s[n:]`.
-- The repository with its registry, and the tag or digest.
split_tag : Bytes → Bytes × Bytes
unfolding last_index take drop
split_tag input =
    let slash = last_index b'/' input in
    let sep = last_index b':' input in
    let digest = last_index b'@' input in
    if ltb sep slash || sep == 0
    then (input, codes "latest")
    else if ltb digest sep && ltb slash digest
    then (
      let repository = take (digest - 1) input in
          let inner = last_index b':' repository in
          if leb slash inner && not (inner == 0) then take (inner - 1) input else repository,
      drop digest input,
    )
    else (take (sep - 1) input, drop sep input)

abbrev pub between : ℕ → ℕ → ℕ → Bool
between lo c hi = leb lo c && leb c hi

abbrev pub is_digit : ℕ → Bool
is_digit c = between b'0' c b'9'

-- The class `[\w\d\.-]`.
abbrev pub is_host_byte : ℕ → Bool
is_host_byte c =
    between b'a' c b'z' || between b'A' c b'Z' || is_digit c || c == b'_' || c == b'.' || c == b'-'

-- A dot with a byte behind it.
dot_inside : Bytes → Bool
dot_inside (a ∷ b ∷ rest) = let later = dot_inside (b ∷ rest) in a == b'.' || later
dot_inside _ = false

abbrev pub is_not_empty : Bytes → Bool
is_not_empty [] = false
is_not_empty (c ∷ cs) = true

abbrev rest_of : Bytes → Bytes
rest_of [] = []
rest_of (c ∷ cs) = cs

-- Whether `[\w\d\.-]+(\.[\w\d\.-]+|:[\d]+)` matches the whole text.
unfoldable pub is_hostname : Bytes → Bool
unfolding cut dot_inside
is_hostname p = elim (cut b':' p) [
  | none ↦ all is_host_byte p && dot_inside (rest_of p)
  | some (host, port) ↦
      is_not_empty host && all is_host_byte host && is_not_empty port && all is_digit port
]

-- The end of `ParseName`: neither the class nor a port has a slash, so that the registry can only
-- be the text before the first one.
split_registry : Bytes → Bytes → Name
unfolding cut is_hostname
split_registry repository tag = elim (cut b'/' repository) [
  | none ↦ record { registry = []; repository = repository; tag = tag }
  | some (host, rest) ↦
      if is_hostname host
      then record { registry = host; repository = rest; tag = tag }
      else record { registry = []; repository = repository; tag = tag }
]

-- `ParseName`; its error is always nil.
pub parse_name : Bytes → Name
unfolding split_tag split_registry
parse_name input = let (repository, tag) = split_tag input in split_registry repository tag

-- `ParseNameForPull`
unfoldable pub parse_name_for_pull : Bytes → Name
unfolding parse_name count
parse_name_for_pull input =
    let name = parse_name input in
    if bytes_eq name.repository scratch || is_not_empty name.registry then name else record name {
      registry = docker_hub_registry;
      repository =
          if count b'/' name.repository == 0
          then docker_hub_namespace ++ (b'/' ∷ name.repository)
          else name.repository;
    }

-- `(Name).IsValid`
unfoldable pub is_valid : Name → Bool
is_valid name =
    bytes_eq name.repository scratch
    || is_not_empty name.registry && is_not_empty name.repository && is_not_empty name.tag

-- `(Name).ShortName`
unfoldable pub short_name : Name → Bytes
unfolding count
short_name name = name.repository ++ ((if count b':' name.tag == 0 then b':' else b'@') ∷ name.tag)

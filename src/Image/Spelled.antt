-- ===== src/Image/Spelled.antt =====
-- Image names read back from their spelling.
use makisu.Base.{
  take, drop, ℕ, suc, ◌+◌, ◌≤◌, Bool, true, false, not, ◌&&◌, ◌||◌, some, none, [], ◌∷◌, ◌++◌,
  append_assoc, ◌≡◌, refl, sym, ap, ◌∙◌, arith, ◌==◌, ltb, Bytes, codes, all, length, length-append,
}
use makisu.Text.{cut, cut_found}
use makisu.Image.{last_index, split_tag, is_hostname, split_registry, parse_name}

-- The byte does not occur.
abbrev pub lacks : ℕ → Bytes → Bool
lacks c = all (λ x. not (x == c))

last_index-lacks : (c : ℕ) (xs : Bytes) → lacks c xs ≡ true → last_index c xs ≡ 0
unfolding last_index
last_index-lacks c [] h = refl
last_index-lacks c (x ∷ xs) h = ground (arith, last_index-lacks c xs)

last_index-found :
    (c : ℕ) (xs ys : Bytes) → lacks c ys ≡ true → last_index c (xs ++ (c ∷ ys)) ≡ suc (length xs)
unfolding last_index
last_index-found c [] ys h = ground (arith, last_index-lacks c ys h)
last_index-found c (x ∷ xs) ys h = ground (arith, last_index-found c xs ys h)

-- Behind a text without the byte, nothing is found; before it, what is found is unchanged.
last_index-append :
    (c : ℕ) (xs ys : Bytes) → lacks c ys ≡ true → last_index c (xs ++ ys) ≡ last_index c xs
unfolding last_index
last_index-append c [] ys h = last_index-lacks c ys h
last_index-append c (x ∷ xs) ys h = ground (arith, last_index-append c xs ys h)

last_index-le : (c : ℕ) (xs : Bytes) → last_index c xs ≤ length xs
unfolding last_index
last_index-le c [] = omega arith
last_index-le c (x ∷ xs) = ground (arith, last_index-le c xs)

last_index-ge : (c : ℕ) (xs ys : Bytes) → length xs + 1 ≤ last_index c (xs ++ (c ∷ ys))
unfolding last_index
last_index-ge c [] ys = ground arith
last_index-ge c (x ∷ xs) ys = ground (arith, last_index-ge c xs ys)

take-append : (xs ys : Bytes) → take (length xs) (xs ++ ys) ≡ xs
unfolding take
take-append [] ys = refl
take-append (x ∷ xs) ys = rw (take-append xs ys)

drop-append : (c : ℕ) (xs ys : Bytes) → drop (suc (length xs)) (xs ++ (c ∷ ys)) ≡ ys
unfolding drop
drop-append c [] ys = refl
drop-append c (x ∷ xs) ys = drop-append c xs ys

-- A registry, if there is one, and a repository.
abbrev pub prefixed : Bytes → Bytes → Bytes
prefixed [] r = r
prefixed (h ∷ hs) r = (h ∷ hs) ++ (b'/' ∷ r)

-- The registry is empty or a host name, the repository has neither colon nor at-sign, and without a
-- registry it does not begin with a host name and a slash.
abbrev pub IsPlace : Bytes → Bytes → Type 0
IsPlace [] r =
    ((lacks b':' r && lacks b'@' r) ≡ true)
    × (elim (cut b'/' r) [ none ↦ false | some (host, rest) ↦ is_hostname host ] ≡ false)
IsPlace (h ∷ hs) r =
    ((lacks b':' r && lacks b'@' r) ≡ true)
    × ((is_hostname (h ∷ hs) && lacks b'/' (h ∷ hs) && lacks b'@' (h ∷ hs)) ≡ true)

pub data Reference : Type 0 where
  untagged : Reference
  tagged : Bytes → Reference
  digest : Bytes → Bytes → Reference

abbrev pub spell : Bytes → Reference → Bytes
spell place untagged = place
spell place (tagged t) = place ++ (b':' ∷ t)
spell place (digest algorithm hex) = place ++ (b'@' ∷ (algorithm ++ (b':' ∷ hex)))

abbrev pub meaning : Reference → Bytes
meaning untagged = codes "latest"
meaning (tagged t) = t
meaning (digest algorithm hex) = algorithm ++ (b':' ∷ hex)

abbrev pub lacks_separators : Bytes → Bool
lacks_separators t = lacks b':' t && lacks b'/' t && lacks b'@' t

abbrev pub IsReference : Reference → Type 0
IsReference untagged = Unit
IsReference (tagged t) = lacks_separators t ≡ true
IsReference (digest algorithm hex) =
    (lacks b'/' algorithm && lacks b'@' algorithm && lacks_separators hex) ≡ true

lacks-append :
    (c : ℕ) (xs ys : Bytes) → (lacks c xs && lacks c ys) ≡ true → lacks c (xs ++ ys) ≡ true
lacks-append c [] ys h = h
lacks-append c (x ∷ xs) ys h = ground (arith, lacks-append c xs ys)

-- The last colon of a place stands in front of its last slash, if there is one.
record IsUntagged (place : Bytes) : Type 0 where
  colon : (ltb (last_index b':' place) (last_index b'/' place) || last_index b':' place == 0) ≡ true
  at : last_index b'@' place ≡ 0

place-IsUntagged : (g r : Bytes) → IsPlace g r → IsUntagged (prefixed g r)
place-IsUntagged [] r h = record {
  colon = let e = last_index-lacks b':' r (ground (arith, h)) in ground (arith, e);
  at = last_index-lacks b'@' r (ground (arith, h));
}
place-IsUntagged (x ∷ g) r h = record {
  colon =
      let e = last_index-append b':' (x ∷ g) (b'/' ∷ r) (ground (arith, h)) in
      ground (arith, e, last_index-le b':' (x ∷ g), last_index-ge b'/' (x ∷ g) r);
  at =
      last_index-lacks b'@' ((x ∷ g) ++ (b'/' ∷ r))
        (lacks-append b'@' (x ∷ g) (b'/' ∷ r) (ground (arith, h)));
}

split_registry-place :
    (g r t : Bytes)
    → IsPlace g r
    → split_registry (prefixed g r) t ≡ record { registry = g; repository = r; tag = t }
unfolding split_registry
split_registry-place [] r t h = ground (arith, h)
split_registry-place (x ∷ g) r t h = ground (arith, cut_found b'/' (x ∷ g) r (ground (arith, h)), h)

split_tag-untagged : (place : Bytes) → IsUntagged place → split_tag place ≡ (place, codes "latest")
unfolding split_tag
split_tag-untagged place h = ground (arith, h.colon)

split_tag-tagged :
    (place t : Bytes)
    → IsUntagged place
    → lacks_separators t ≡ true
    → split_tag (place ++ (b':' ∷ t)) ≡ (place, t)
unfolding split_tag
split_tag-tagged place t h k =
    let sep = last_index-found b':' place t (ground (arith, k)) in
    let slash = last_index-append b'/' place (b':' ∷ t) (ground (arith, k)) in
    let at = last_index-append b'@' place (b':' ∷ t) (ground (arith, k)) in
    ground (
      arith,
      sep,
      slash,
      at,
      h.at,
      last_index-le b'/' place,
      take-append place (b':' ∷ t),
      drop-append b':' place t,
    )

split_tag-digest :
    (place algorithm hex : Bytes)
    → IsUntagged place
    → (lacks b'/' algorithm && lacks b'@' algorithm && lacks_separators hex) ≡ true
    → split_tag (place ++ (b'@' ∷ (algorithm ++ (b':' ∷ hex)))) ≡ (place, algorithm ++ (b':' ∷ hex))
unfolding split_tag
split_tag-digest place algorithm hex h k =
    let behind = algorithm ++ (b':' ∷ hex) in
    let sep : last_index b':' (place ++ (b'@' ∷ behind))
        ≡ suc (length (place ++ (b'@' ∷ algorithm))) =
      ap (last_index b':') (sym (append_assoc place (b'@' ∷ algorithm) (b':' ∷ hex)))
      ∙ last_index-found b':' (place ++ (b'@' ∷ algorithm)) hex (ground (arith, k)) in
    let slash =
      last_index-append b'/' place (b'@' ∷ behind)
        (lacks-append b'/' (b'@' ∷ algorithm) (b':' ∷ hex) (ground (arith, k))) in
    let at =
      last_index-found b'@' place behind
        (lacks-append b'@' algorithm (b':' ∷ hex) (ground (arith, k))) in
    ground (
      arith,
      sep,
      slash,
      at,
      h.colon,
      last_index-le b'/' place,
      length-append place (b'@' ∷ algorithm),
      take-append place (b'@' ∷ behind),
      drop-append b'@' place behind,
    )

-- A name spelled as a registry (perhaps none) and a repository, then nothing, a tag or a digest,
-- is parsed into these parts, with the tag `latest` where there is none. The registry is a host name
-- with a dot inside or a port; the repository has neither colon nor at-sign, and does not itself
-- begin with a host name where there is no registry; the tag has neither colon, slash nor at-sign.
pub parse_name-spell :
    (g r : Bytes) (ref : Reference)
    → IsPlace g r
    → IsReference ref
    → parse_name (spell (prefixed g r) ref)
      ≡ record { registry = g; repository = r; tag = meaning ref }
unfolding parse_name
parse_name-spell g r untagged h k =
    rw (split_tag-untagged (prefixed g r) (place-IsUntagged g r h)) (split_registry-place g r _ h)
parse_name-spell g r (tagged t) h k =
    rw (split_tag-tagged (prefixed g r) t (place-IsUntagged g r h) k) (split_registry-place g r _ h)
parse_name-spell g r (digest algorithm hex) h k =
    rw (split_tag-digest (prefixed g r) algorithm hex (place-IsUntagged g r h) k)
      (split_registry-place g r _ h)

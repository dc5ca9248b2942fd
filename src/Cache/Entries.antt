-- ===== src/Cache/Entries.antt =====
-- Entries of the cache: `parseEntry` reads what `createEntry` writes.
use makisu.Base.{
  Bool, true, false, not, some, ◌∷◌, ◌++◌, ◌≡◌, ◌≢◌, refl, sym, ap, ◌∙◌, arith, ◌==◌, Bytes,
  bytes_eq, bytes_eq_iff, all,
}
use makisu.Text.{cut, cut_found}
use makisu.Cache.{DigestPair, hex, create_entry, parse_entry, sha256, cache_empty_entry}

abbrev pub no_comma : Bytes → Bool
no_comma = all (λ c. not (c == b','))

pub hex-sha256 : (h : Bytes) → hex (sha256 h) ≡ h
unfolding hex cut
hex-sha256 h = refl

-- A digest pair whose digests are `sha256:` and a text, the first without a comma.
pub record IsDigestPair (p : DigestPair) (tar gzip : Bytes) : Type 0 where
  pub tar_is : p.tar_digest ≡ sha256 tar
  pub gzip_is : p.gzip_descriptor.digest ≡ sha256 gzip
  pub tar_no_comma : no_comma tar ≡ true

create_entry-IsDigestPair :
    (p : DigestPair) (tar gzip : Bytes)
    → IsDigestPair p tar gzip
    → create_entry (some p) ≡ tar ++ (b',' ∷ gzip)
unfolding create_entry
create_entry-IsDigestPair p tar gzip h = rw (h.tar_is, h.gzip_is, hex-sha256 tar, hex-sha256 gzip)

-- An entry with a comma in it is not the mark of an empty layer.
has_comma-ne-empty :
    (tar gzip : Bytes) → no_comma tar ≡ true → tar ++ (b',' ∷ gzip) ≢ cache_empty_entry
unfolding cut
has_comma-ne-empty tar gzip n h =
    let e : some (tar, gzip) ≡ cut b',' cache_empty_entry =
      sym (cut_found b',' tar gzip n) ∙ ap (cut b',') h in
    cc e

-- The entry of a pair of `sha256:` digests, the first without a comma, reads back as the two
-- digests, and is not taken for the mark of an empty layer.
pub parse_entry-create_entry :
    (p : DigestPair) (tar gzip : Bytes)
    → IsDigestPair p tar gzip
    → (parse_entry (create_entry (some p)) ≡ some (p.tar_digest, p.gzip_descriptor.digest))
      × (bytes_eq (create_entry (some p)) cache_empty_entry ≡ false)
unfolding parse_entry
parse_entry-create_entry p tar gzip h = (
  ap parse_entry (create_entry-IsDigestPair p tar gzip h)
      ∙ ground (arith, cut_found b',' tar gzip h.tar_no_comma, h.tar_is, h.gzip_is),
  rw (create_entry-IsDigestPair p tar gzip h) (
      ground (
        arith,
        bytes_eq_iff (tar ++ (b',' ∷ gzip)) cache_empty_entry,
        has_comma-ne-empty tar gzip h.tar_no_comma,
      )),
)

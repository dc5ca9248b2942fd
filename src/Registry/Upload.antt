-- ===== src/Registry/Upload.antt =====
-- lib/registry/client.go: the upload of a layer in chunks. lib/registry/config.go: the defaults.
use makisu.Base.{
  bytes_eq, ℕ, zero, suc, Bool, Option, none, some, List, [], ◌∷◌, ◌++◌, Bytes, if◌then◌else◌, ◌==◌,
  ltb, take, drop, ◌+◌, ◌-◌, ◌*◌, codes,
}
use makisu.Cache.{hex}
use makisu.Registry.Http.{
  Outside, SendOptions, other, out_of_fuel, M, ◌>>=◌, continue, require, return, throw, patch, send,
}

-- `push_chunk` is `none` for -1, which turns chunks off; no other negative number is modelled.
pub record Config : Type 0 where
  pub concurrency : ℕ
  pub retry_disabled : Bool
  pub retries : ℕ
  pub push_chunk : Option ℕ

unfoldable pub apply_defaults : Config → Config
apply_defaults c = record c {
  concurrency = if c.concurrency == 0 then 3 else c.concurrency;
  retries = if c.retries == 0 then 4 else c.retries;
  push_chunk = elim c.push_chunk [
    | none ↦ none
    | some n ↦ some (if n == 0 then 50 * 1024 * 1024 else n)
  ];
}

-- How often the backoff lets a call be tried again, its time aside, for a configuration with its
-- defaults: `retries` is not 0, which the package backoff takes as no limit.
unfoldable pub backoff : Config → ℕ
backoff c = if c.retry_disabled then 0 else c.retries

-- The layers of the local store: GetStoreFileStat and GetStoreFileReader, by the hex of a digest.
pub record Layers : Type 0 where
  pub store_stat : Bytes → Option ℕ
  pub store_reader : Bytes → Option Bytes

abbrev pub upload_codes : List ℕ
upload_codes = 202 ∷ 204 ∷ 201 ∷ []

-- The bytes of a chunk of a layer of `size` bytes.
unfoldable pub chunk_of : Option ℕ → ℕ → ℕ
chunk_of none size = size
chunk_of (some n) size = n

unfoldable pub min : ℕ → ℕ → ℕ
min a b = if ltb b a then b else a

module _ (out : Outside) (c : Config) where
  -- GetHTTPOption, of which only the scheme is read here.
  unfoldable pub with_security : List ℕ → M SendOptions
  unfolding backoff
  with_security accepted h =
      continue (require (out.security h) (codes "get security opt") h)
        λ tls. return (record { accepted = accepted; retries = backoff c; tls = tls })

  -- The bytes from `start` up to `stop`, which is one more than `endIncluded`, are read from `r`.
  -- The result is the new location and what is left of `r`.
  unfoldable pub push_one_layer_chunk : Bytes → ℕ → ℕ → Bytes → M (Bytes × Bytes)
  unfolding with_security
  push_one_layer_chunk location start stop r = do
    o ← with_security upload_codes
    (resp, unread) ← send out o patch location (some (start, stop)) (take (stop - start) r)
    if bytes_eq resp.location []
        then throw (other (codes "empty layer upload URL"))
        else return (resp.location, unread ++ drop (stop - start) r)

  -- `for start < size`.
  unfoldable pub push_chunks : ℕ → (size chunk : ℕ) → Bytes → (start stop : ℕ) → Bytes → M Bytes
  unfolding min
  push_chunks zero size chunk location start stop r =
      if ltb start size then throw out_of_fuel else return location
  push_chunks (suc fuel) size chunk location start stop r =
      let rest : M Bytes = push_one_layer_chunk location start stop r >>= λ sent.
      push_chunks fuel size chunk sent.0 stop (min (start + chunk) size) sent.1 in
      if ltb start size then rest else return location

  unfoldable pub push_layer_content : Layers → Bytes → Bytes → M Bytes
  unfolding push_chunks chunk_of
  push_layer_content s digest location = do
    size ← require (s.store_stat (hex digest)) (codes "get layer file stat")
    let chunk = chunk_of c.push_chunk size
    r ← require (s.store_reader (hex digest)) (codes "get layer file reader")
    push_chunks (2 * size + 1) size chunk location 0 (min chunk size) r

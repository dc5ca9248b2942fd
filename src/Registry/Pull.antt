-- ===== src/Registry/Pull.antt =====
-- lib/registry/client.go: the pulling of a layer into the local store, and the calls of
-- lib/storage/layer_tar_store.go that it makes. One goroutine works with a name at a time.
use makisu.Base.{
  ℕ, Bool, true, false, Option, none, some, List, [], ◌∷◌, Bytes, bytes_eq, Result, ok, err,
  if◌then◌else◌, ◌≡◌, codes,
}
use makisu.Cache.{hex}
use makisu.FileStore.{
  FileStore, FileError, exists, Outcome, read_file, stat_file, write_file, create_file, move_file,
}
use makisu.Registry.Http.{History, Outside, SendError, Response, M, ◌>>=◌, return, get, send}
use makisu.Registry.Upload.{with_security}
use makisu.Registry.Client.{DockerRegistryClient, layer_query}
pub mod Verified

-- LayerTarStore: the directories of its two states.
pub record LayerTarStore : Type 0 where
  pub download_state : Bytes
  pub cache_state : Bytes

pub data PullError : Type 0 where
  sent : SendError → PullError
  file : FileError → PullError
  copy_failed not_verified layers_failed marshal_failed : PullError

abbrev pub Pulled : Type 0 → Type 0
Pulled A = Result PullError A × FileStore

-- `if err != nil { return err }` behind a call of the store.
abbrev pub behind : {A B : Type 0} → Outcome A → (A → FileStore → Pulled B) → Pulled B
behind (ok a, st) f = f a st
behind (err e, st) f = (err (file e), st)

abbrev pub next : {A B : Type 0} → Pulled A → (A → FileStore → Pulled B) → Pulled B
next (ok a, st) f = f a st
next (err e, st) f = (err e, st)

module _ (l : LayerTarStore) (digest_of : Bytes → Bytes) where
  -- MoveDownloadFileToStore, where a file that is there already is no error.
  abbrev pub moved : Outcome (Unit {0}) → Pulled (Unit {0})
  moved (err exists, st) = (ok tt, st)
  moved (err e, st) = (err (file e), st)
  moved (ok a, st) = (ok tt, st)

  unfoldable pub save_layer : Bytes → FileStore → Pulled (Unit {0})
  save_layer digest st = behind (read_file st (l.download_state ∷ []) (hex digest)) λ content st₁.
      if bytes_eq (digest_of content) digest
      then moved (move_file st₁ (l.download_state ∷ []) (hex digest) l.cache_state)
      else (err not_verified, st₁)

  -- From the response to the end: the download file is made, filled, verified and moved.
  unfoldable pub store_layer : Bytes → Response → FileStore → Pulled ℕ
  unfolding save_layer
  store_layer digest resp st =
      behind (create_file st (l.download_state ∷ []) (hex digest) l.download_state 0) λ u st₁.
        behind (write_file st₁ (l.download_state ∷ []) (hex digest) resp.body) λ w st₂.
          if resp.broken
          then (err copy_failed, st₂)
          else next (save_layer digest st₂) λ x st₃.
            behind (stat_file st₃ (l.download_state ∷ l.cache_state ∷ []) (hex digest))
              λ n st₄. (ok n, st₄)

-- The request for a layer.
module _ (out : Outside) (c : DockerRegistryClient) where
  unfoldable pub fetch_layer : Bytes → M Response
  fetch_layer digest = do
    o ← with_security out c.config (200 ∷ [])
    (resp, rest) ← send out o get (layer_query c digest) none []
    return resp

abbrev pub fetched :
    FileStore → (Response → Pulled ℕ) → Result SendError Response × History → Pulled ℕ × History
fetched st f (ok resp, h) = (f resp, h)
fetched st f (err e, h) = ((err (sent e), st), h)

abbrev pub kept_or : Outcome ℕ → History → (FileStore → Pulled ℕ × History) → Pulled ℕ × History
kept_or (ok n, st) h f = ((ok n, st), h)
kept_or (err e, st) h f = f st

module _ (out : Outside) (c : DockerRegistryClient) (l : LayerTarStore)
    (digest_of : Bytes → Bytes) where
  -- pullLayerHelper. A layer that the store has in either state is not pulled.
  unfoldable pub pull_layer : Bytes → FileStore → History → Pulled ℕ × History
  unfolding store_layer fetch_layer
  pull_layer digest st h =
      kept_or (stat_file st (l.download_state ∷ l.cache_state ∷ []) (hex digest)) h λ st'.
        fetched st' (λ resp. store_layer l digest_of digest resp st') (fetch_layer out c digest h)

-- ===== src/Registry/Client.antt =====
-- lib/registry/client.go: the requests for layers and manifests. Whether a blob is a layer or the
-- configuration of an image changes the logs only, so `isConfig` is left out.
use makisu.Base.{
  ℕ, zero, suc, Bool, false, ◌&&◌, ◌||◌, not, Option, none, List, [], ◌∷◌, ◌++◌, Bytes, Result, ok,
  err, if◌then◌else◌, ◌==◌, codes, bytes_eq,
}
use makisu.Registry.Http.{
  History, Outside, SendError, other, M, ◌>>=◌, ◌>>◌, return, throw, require, head, get, post, put,
  send, is_network_error, is_retryable, is_status,
}
use makisu.Registry.Upload.{Config, Layers, with_security, push_layer_content, backoff}

-- DockerRegistryClient, its store and HTTP client aside.
pub record DockerRegistryClient : Type 0 where
  pub config : Config
  pub registry : Bytes
  pub repository : Bytes

-- baseManifestQuery, baseLayerQuery and baseStartQuery.
pub manifest_query : DockerRegistryClient → Bytes → Bytes
manifest_query c tag =
    codes "http://" ++ c.registry ++ codes "/v2/" ++ c.repository ++ codes "/manifests/" ++ tag

pub layer_query : DockerRegistryClient → Bytes → Bytes
layer_query c digest =
    codes "http://" ++ c.registry ++ codes "/v2/" ++ c.repository ++ codes "/blobs/" ++ digest

pub start_query : DockerRegistryClient → Bytes
start_query c =
    codes "http://" ++ c.registry ++ codes "/v2/" ++ c.repository ++ codes "/blobs/uploads/"

-- The package encoding/json and image.UnmarshalDistributionManifest, for a type of manifests.
pub record Codec {ℓ} (Manifest : Type ℓ) : Type ℓ where
  pub marshal : Manifest → Option Bytes
  pub unmarshal : Bytes → Bytes → Option Manifest

abbrev pub commit_codes : List ℕ
commit_codes = 201 ∷ 204 ∷ []

-- The errors that a round adds, and whether its error is one to try again after.
unfoldable pub errors_of : Result SendError (Unit {0}) → List SendError
errors_of (ok a) = []
errors_of (err e) = e ∷ []

unfoldable pub may_retry : Result SendError (Unit {0}) → Bool
may_retry (ok a) = false
may_retry (err e) = is_network_error e || is_retryable e || is_status e 500

module _ (out : Outside) (c : DockerRegistryClient) where
  unfoldable pub layer_exists : Bytes → M Bool
  layer_exists digest = do
    o ← with_security out c.config (200 ∷ 404 ∷ [])
    (resp, rest) ← send out o head (layer_query c digest) none []
    return (not (resp.code == 404))

  unfoldable pub manifest_exists : Bytes → M Bool
  manifest_exists tag = do
    o ← with_security out c.config (200 ∷ 404 ∷ 400 ∷ [])
    (resp, rest) ← send out o head (manifest_query c tag) none []
    return (not (resp.code == 404 || resp.code == 400))

  unfoldable pub commit_layer : Bytes → M (Unit {0})
  commit_layer location = do
    o ← with_security out c.config commit_codes
    sent ← send out o put location none []
    return tt

  -- From POST on: the upload of a layer that the registry has not got.
  unfoldable pub upload_layer : Layers → Bytes → M (Unit {0})
  upload_layer s digest = do
    o ← with_security out c.config (202 ∷ [])
    (resp, rest) ← send out o post (start_query c) none []
    if bytes_eq resp.location []
        then throw (other (codes "empty layer upload URL"))
        else return (tt {0})
    location ← push_layer_content out c.config s digest resp.location
    url ← require (out.add_digest location digest) (codes "failed to parse location")
    commit_layer url

  unfoldable pub push_layer_helper : Layers → Bytes → M (Unit {0})
  unfolding layer_exists upload_layer
  push_layer_helper s digest = do
    found ← layer_exists digest
    if found then return tt else upload_layer s digest

  -- The rounds of pushLayerWithBackoff, with the retries that the backoff still gives, and the
  -- errors so far.
  unfoldable pub push_rounds :
      ℕ → Layers → Bytes → List SendError → History → List SendError × History
  push_rounds zero s digest errors h =
      let (r, h') = push_layer_helper s digest h in (errors ++ errors_of r, h')
  push_rounds (suc n) s digest errors h =
      let (r, h') = push_layer_helper s digest h in
      let again = push_rounds n s digest (errors ++ errors_of r) h' in
      if not (out.push_elapsed h') && may_retry r then again else (errors ++ errors_of r, h')

  unfoldable pub push_layer_with_backoff : Layers → Bytes → History → List SendError × History
  unfolding push_rounds backoff
  push_layer_with_backoff s digest h = push_rounds (backoff c.config) s digest [] h

  unfoldable pub pull_manifest {ℓ} : {Manifest : Type ℓ} → Codec Manifest → Bytes → M Manifest
  pull_manifest j tag = do
    o ← with_security out c.config (200 ∷ 404 ∷ 400 ∷ [])
    (resp, rest) ← send out o get (manifest_query c tag) none []
    if resp.code == 404 || resp.code == 400
        then throw (other (codes "manifest not found"))
        else if not (resp.code == 200)
        then throw (other (codes "bad pull manifest request resp code"))
        else return (tt {0})
    if resp.broken then throw (other (codes "read resp body")) else return (tt {0})
    require (j.unmarshal resp.content_type resp.body) (codes "unmarshal distribution manifest")

  unfoldable pub push_manifest {ℓ} :
      {Manifest : Type ℓ} → Codec Manifest → Bytes → Manifest → M (Unit {0})
  push_manifest j tag manifest = do
    payload ← require (j.marshal manifest) (codes "marshal manifest")
    o ← with_security out c.config (200 ∷ 201 ∷ [])
    sent ← send out o put (manifest_query c tag) none payload
    return tt

-- ===== src/Registry/Push.antt =====
-- lib/registry/client.go: Push. The requests of a goroutine are its own history: the answers to
-- them may depend on anything, and so on those of the other goroutines too.
use makisu.Base.{
  ℕ, Bool, true, false, not, Option, none, some, List, [], ◌∷◌, ◌++◌, Bytes, Result, ok, err, Dict,
  lookup, insert, if◌then◌else◌, ◌≡◌, codes,
}
use makisu.Cache.{hex}
use makisu.Registry.Http.{
  History, Outside, SendError, other, M, ◌>>=◌, ◌>>◌, return, throw, require,
}
use makisu.Registry.Upload.{Layers}
use makisu.Registry.Client.{
  DockerRegistryClient, Codec, manifest_exists, push_manifest, push_layer_with_backoff,
}
use makisu.Registry.Pool.{WorkerPool}
use makisu.Registry.Pool.Complete.{any_failed}
pub mod Pushed

-- The digests of an image.DistributionManifest.
pub record DistributionManifest : Type 0 where
  pub config : Bytes
  pub layers : List Bytes

-- The store of manifests, and the package encoding/json on what is read from it.
pub record Manifests : Type 0 where
  pub store_reader : Bytes → Bytes → Option Bytes
  pub unmarshal_json : Bytes → Option DistributionManifest

-- `layerSet`: a layer is pushed for the first digest with its hex.
unfoldable pub distinct_layers : Dict (Unit {0}) → List Bytes → List Bytes
distinct_layers seen [] = []
distinct_layers seen (l ∷ ls) =
    let kept = l ∷ distinct_layers (insert (hex l) tt seen) ls in
    let skipped = distinct_layers seen ls in
    elim (lookup (hex l) seen) [ none ↦ kept | some u ↦ skipped ]

-- What is handed to the workers.
unfoldable pub push_tasks : DistributionManifest → List Bytes
unfolding distinct_layers
push_tasks m = distinct_layers [] m.layers ++ m.config ∷ []

-- The workers' function: the task failed if it has an error to add to `multiError`.
unfoldable pub push_task : Outside → DockerRegistryClient → Layers → Bytes → History → Bool
push_task out c s l h = elim (push_layer_with_backoff out c s l h).0 [ [] ↦ false | e ∷ es ↦ true ]

module _ (out : Outside) (c : DockerRegistryClient) where
  unfoldable pub load_manifest : Manifests → Bytes → M DistributionManifest
  load_manifest s tag = do
    content ← require (s.store_reader c.repository tag) (codes "get manifest file reader")
    require (s.unmarshal_json content) (codes "unmarshal manifest")

  -- Push, with the pool as Wait has left it.
  unfoldable pub push :
      {A : Type 0} → Manifests → Codec DistributionManifest → WorkerPool A → Bytes → M (Unit {0})
  unfolding load_manifest
  push s j pool tag = do
    found ← manifest_exists out c tag
    manifest ← load_manifest s tag
    if any_failed pool.finished then throw (other (codes "push layer")) else return (tt {0})
    push_manifest out c j tag manifest

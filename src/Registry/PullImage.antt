-- ===== src/Registry/PullImage.antt =====
-- lib/registry/client.go: Pull and saveManifest. The store of manifests is a store of files of its
-- own, whose names stand for a repository and a tag and whose two states are those of the layers.
use makisu.Base.{
  ℕ, false, Option, none, some, [], ◌∷◌, Bytes, bytes_eq, bytes_eq_refl, Result, ok, err,
  if◌then◌else◌, ◌≡◌, refl, arith,
}
use makisu.FileStore.{FileStore, Outcome, stat_file, write_file, create_file, move_file}
use makisu.FileStore.View.{
  view, IsInStep, run_lem, create, write, move, run, spec, read_file-present, stat_file-absent,
}
use makisu.Registry.Http.{History, Outside, SendError}
use makisu.Registry.Client.{DockerRegistryClient, Codec, pull_manifest}
use makisu.Registry.Push.{DistributionManifest}
use makisu.Registry.Pool.{WorkerPool}
use makisu.Registry.Pool.Complete.{any_failed}
use makisu.Registry.Pull.{LayerTarStore, sent, layers_failed, marshal_failed, Pulled, behind}
use makisu.Registry.Pull.Verified.{overwrite_empty}

abbrev pub kept : Outcome ℕ → (FileStore → Pulled (Unit {0})) → Pulled (Unit {0})
kept (ok n, st) f = (ok tt, st)
kept (err e, st) f = f st

abbrev pub marshalled : Option Bytes → FileStore → (Bytes → Pulled (Unit {0})) → Pulled (Unit {0})
marshalled none st f = (err marshal_failed, st)
marshalled (some json) st f = f json

module _ (l : LayerTarStore) (marshal : DistributionManifest → Option Bytes) where
  -- A new manifest file, written and moved.
  unfoldable pub write_manifest : DistributionManifest → Bytes → FileStore → Pulled (Unit {0})
  write_manifest m name st =
      behind (create_file st (l.download_state ∷ []) name l.download_state 0) λ u st₁.
        marshalled (marshal m) st₁ λ json.
          behind (write_file st₁ (l.download_state ∷ []) name json) λ w st₂.
            behind (move_file st₂ (l.download_state ∷ []) name l.cache_state) λ x st₃. (ok tt, st₃)

  -- saveManifest: a manifest that is there already is kept.
  unfoldable pub save_manifest : DistributionManifest → Bytes → FileStore → Pulled (Unit {0})
  unfolding write_manifest
  save_manifest m name st =
      kept (stat_file st (l.download_state ∷ l.cache_state ∷ []) name)
        λ st'. write_manifest m name st'

  module _ (m : DistributionManifest) (name : Bytes) (st : FileStore) (v : IsInStep st) where
    -- A manifest of the same name is not replaced, whatever it says.
    pub save_manifest-kept :
        (old : Bytes)
        → view st name ≡ some (l.cache_state, old)
        → save_manifest m name st ≡ (ok tt, st)
    unfolding save_manifest
    save_manifest-kept old e =
        let (content, size) =
          read_file-present st (l.download_state ∷ l.cache_state ∷ []) name v l.cache_state old e
            (ground (arith, bytes_eq_refl l.cache_state)) in
        rw (size, save_manifest) refl

    -- A new one is in the cache afterwards.
    pub save_manifest-new :
        (json : Bytes)
        → bytes_eq l.download_state l.cache_state ≡ false
        → view st name ≡ none
        → marshal m ≡ some json
        → (st' : FileStore) × (save_manifest m name st ≡ (ok tt, st'))
          × IsInStep st'
          × (view st' name ≡ some (l.cache_state, json))
    unfolding save_manifest run spec
    save_manifest-new json apart e spelled =
        let d = l.download_state in
        let (st₁, made, v₁, e₁) =
          run_lem st (d ∷ []) name (create d 0) none (some (d, [])) (ok tt) v e refl in
        let (st₂, copied, v₂, e₂) =
          run_lem st₁ (d ∷ []) name (write json) (some (d, [])) (some (d, json)) (ok tt) v₁ e₁
            (rw (bytes_eq_refl d, overwrite_empty json) refl) in
        let (st₃, moved, v₃, e₃) =
          run_lem st₂ (d ∷ []) name (move l.cache_state) (some (d, json))
            (some (l.cache_state, json)) (ok tt) v₂ e₂ (ground (arith, bytes_eq_refl d, apart)) in
        let absent = stat_file-absent st (d ∷ l.cache_state ∷ []) name v e in
        (st₃, rw (absent, made, spelled, copied, moved) refl, v₃, e₃)

abbrev pub saved : DistributionManifest → Pulled (Unit {0}) → Pulled DistributionManifest
saved m (ok u, st) = (ok m, st)
saved m (err e, st) = (err e, st)

abbrev pub with_manifest :
    {A : Type 0}
    → FileStore
    → Result SendError DistributionManifest × History
    → (DistributionManifest → Pulled A)
    → Pulled A × History
with_manifest st (ok m, h) f = (f m, h)
with_manifest st (err e, h) f = ((err (sent e), st), h)

module _ (out : Outside) (c : DockerRegistryClient) (l : LayerTarStore) where
  -- Pull, with the pool as Wait has left it.
  unfoldable pub pull :
      (DistributionManifest → Option Bytes)
      → Codec DistributionManifest
      → WorkerPool Bytes
      → Bytes
      → Bytes
      → FileStore
      → History
      → Pulled DistributionManifest × History
  unfolding save_manifest
  pull marshal j pool tag name st h = with_manifest st (pull_manifest out c j tag h) λ m.
      if any_failed pool.finished
      then (err layers_failed, st)
      else saved m (save_manifest l marshal m name st)

module _ (out : Outside) (c : DockerRegistryClient) (l : LayerTarStore)
    (marshal : DistributionManifest → Option Bytes) (j : Codec DistributionManifest) where
  -- The file of a manifest in the cache, if there is one.
  abbrev pub in_cache : Option Bytes → Option (Bytes × Bytes)
  in_cache none = none
  in_cache (some content) = some (l.cache_state, content)

  abbrev pub content_or : Bytes → Option Bytes → Bytes
  content_or json none = json
  content_or json (some old) = old

  -- Pull of an image whose manifest the registry gives, none of whose layers failed, where the store
  -- has a manifest of the tag in its cache or none in either state: it succeeds with the manifest of
  -- the registry, but the one in the cache is afterwards the one that was there before, whatever it
  -- says, and that of the registry only if there was none.
  pub pull-content_or :
      (pool : WorkerPool Bytes) (tag name json : Bytes) (before : Option Bytes)
      (m : DistributionManifest) (st : FileStore) (h : History) {h' : History}
      → bytes_eq l.download_state l.cache_state ≡ false
      → IsInStep st
      → view st name ≡ in_cache before
      → pull_manifest out c j tag h ≡ (ok m, h')
      → any_failed pool.finished ≡ false
      → marshal m ≡ some json
      → (st' : FileStore) × (pull out c l marshal j pool tag name st h ≡ ((ok m, st'), h'))
        × IsInStep st'
        × (view st' name ≡ in_cache (some (content_or json before)))
  unfolding pull
  pull-content_or pool tag name json (some old) m st h apart v e got clean spelled =
      (st, rw (got, clean, save_manifest-kept l marshal m name st v old e) refl, v, e)
  pull-content_or pool tag name json none m st h apart v e got clean spelled =
      let (st', is, v', e') = save_manifest-new l marshal m name st v json apart e spelled in
      (st', rw (got, clean, is) refl, v', e')

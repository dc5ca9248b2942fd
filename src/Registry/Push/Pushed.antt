-- ===== src/Registry/Push/Pushed.antt =====
-- A manifest is pushed only behind its layers and its configuration.
use makisu.Base.{
  ◌<◌, Bool, true, false, none, some, List, [], ◌∷◌, ◌++◌, Bytes, ok, Dict, bytes_eq, bytes_eq_iff,
  lookup-insert, lookup, insert, ◌≡◌, refl, sym, ap, ◌⊎◌, inl, inr, Bool-cases, Option-cases, arith,
  subst, map, ◌∙◌,
}
use makisu.Cache.{hex}
use makisu.Registry.Http.{
  History, Outside, SendError, Response, response, put, bind-eq-ok, require, mem_code, send,
}
use makisu.Registry.Upload.{Layers, with_security}
use makisu.Registry.Client.{
  DockerRegistryClient, Codec, manifest_query, manifest_exists, push_manifest,
  push_layer_with_backoff,
}
use makisu.Registry.Transport.{reads_once}
use makisu.Registry.Content.{IsSteady, with_security_lem}
use makisu.Registry.Delivered.{Ended, send-Ended, Delivered, push_layer_helper-Delivered}
use makisu.Registry.Backoff.{push_layer_with_backoff-clean}
use makisu.Registry.Pool.{WorkerPool, new_worker_pool, IsDone, Reach}
use makisu.Registry.Pool.Complete.{In, first, later, any_failed, IsDone_complete}
use makisu.Registry.Push.{
  DistributionManifest, Manifests, distinct_layers, push_tasks, push_task, load_manifest, push,
}

module _ (seen : Dict (Unit {0})) (l : Bytes) (ls : List Bytes) where
  distinct_layers-new :
      lookup (hex l) seen ≡ none
      → distinct_layers seen (l ∷ ls) ≡ l ∷ distinct_layers (insert (hex l) tt seen) ls
  unfolding distinct_layers
  distinct_layers-new e = rw (e, distinct_layers)

  distinct_layers-seen :
      {u : Unit {0}}
      → lookup (hex l) seen ≡ some u
      → distinct_layers seen (l ∷ ls) ≡ distinct_layers seen ls
  unfolding distinct_layers
  distinct_layers-seen e = rw (e, distinct_layers)

-- Each layer is pushed, itself or by another with its hex, unless its hex was seen before.
distinct_layers-In :
    (seen : Dict (Unit {0})) (ls : List Bytes) {d : Bytes}
    → In d ls
    → (lookup (hex d) seen ≡ some tt)
      ⊎ ((e : Bytes) × (hex e ≡ hex d) × In e (distinct_layers seen ls))
distinct_layers-In seen [] m = elim m [ ]
distinct_layers-In seen (l ∷ ls) first = elim (Option-cases (lookup (hex l) seen)) [
  | inl new ↦ rw (distinct_layers-new seen l ls new) (inr (l, refl, first))
  | inr (u, old) ↦ inl old
]
distinct_layers-In seen (l ∷ ls) {d = d} (later m) = elim (Option-cases (lookup (hex l) seen)) [
  | inr (u, old) ↦ rw (distinct_layers-seen seen l ls old) (distinct_layers-In seen ls m)
  | inl new ↦
      rw (distinct_layers-new seen l ls new)
        (elim (distinct_layers-In (insert (hex l) tt seen) ls m) [
          | inr (e, same, n) ↦ inr (e, same, later n)
          | inl was ↦ elim (Bool-cases (bytes_eq (hex l) (hex d))) [
            | inl same ↦ inr (l, (bytes_eq_iff (hex l) (hex d)).0 same, first)
            | inr differs ↦ inl (ground (arith, lookup-insert (hex l) (hex d) (tt {0}) seen))
          ]
        ])
]

In-left : {A : Type 0} {x : A} (xs ys : List A) → In x xs → In x (xs ++ ys)
In-left [] ys m = elim m [ ]
In-left (x ∷ xs) ys first = first
In-left (x ∷ xs) ys (later m) = later (In-left xs ys m)

In-last : {A : Type 0} (xs : List A) (x : A) → In x (xs ++ x ∷ [])
In-last [] x = first
In-last (y ∷ xs) x = later (In-last xs x)

-- Each digest of a manifest is handed over, or another with its hex.
push_tasks-In :
    (m : DistributionManifest) {d : Bytes}
    → In d m.layers ⊎ (d ≡ m.config)
    → (e : Bytes) × (hex e ≡ hex d) × In e (push_tasks m)
unfolding push_tasks lookup
push_tasks-In m (inr is) =
    (m.config, ap hex (sym is), In-last (distinct_layers [] m.layers) m.config)
push_tasks-In m (inl i) = elim (distinct_layers-In [] m.layers i) [
  | inl seen ↦ cc
  | inr (e, same, n) ↦ (e, same, In-left (distinct_layers [] m.layers) (m.config ∷ []) n)
]

-- A task of the workers: the digest of its layer, the outside as its goroutine meets it, and the
-- exchanges before its first request.
pub record Task : Type 0 where
  pub digest : Bytes
  pub out : Outside
  pub start : History

module _ (c : DockerRegistryClient) (s : Layers) where
  -- The exchanges of a task, from its start to its end.
  abbrev pub exchanges : Task → History
  exchanges t = (push_layer_with_backoff t.out c s t.digest t.start).1

  -- A task ends with what its run gives.
  abbrev pub TaskRuns : Task → Bool → Type 0
  TaskRuns t failed = push_task t.out c s t.digest t.start ≡ failed

  -- The layer of the digest is in the registry that the task talked to, by its exchanges.
  abbrev pub IsPushed : Task → Type 0
  IsPushed t = Delivered t.out c s t.digest (exchanges t)

  no_error :
      (errors : List SendError) → (elim errors [ [] ↦ false | e ∷ es ↦ true ]) ≡ false → errors ≡ []
  no_error [] h = refl
  no_error (e ∷ es) h = cc

  TaskRuns-IsPushed :
      IsSteady s
      → (t : Task) → reads_once t.out (exchanges t) ≡ true
      → TaskRuns t false
      → IsPushed t
  unfolding push_task
  TaskRuns-IsPushed steady t once clean =
      push_layer_helper-Delivered t.out c s steady t.digest t.start once (
        push_layer_with_backoff-clean t.out c s t.digest t.start
          (no_error (push_layer_with_backoff t.out c s t.digest t.start).0 clean))

-- A digest that is handed over is that of a task.
task_of :
    (ts : List Task) {d : Bytes}
    → In d (map (λ (t : Task). t.digest) ts)
    → (t : Task) × In t ts × (t.digest ≡ d)
task_of [] m = elim m [ ]
task_of (t ∷ ts) first = (t, first, refl)
task_of (t ∷ ts) (later m) = let (u, n, e) = task_of ts m in (u, later n, e)

push_manifest-put :
    (out : Outside) (c : DockerRegistryClient) (j : Codec DistributionManifest) (tag : Bytes)
    (m : DistributionManifest) (h : History) {h' : History}
    → push_manifest out c j tag m h ≡ (ok tt, h')
    → (r : Response) × (mem_code r.code (200 ∷ 201 ∷ []) ≡ true)
      × Ended put (manifest_query c tag) (response r) h'
unfolding push_manifest
push_manifest-put out c j tag m h {h' = h'} e =
    let (payload, h₀, spelled, e₀) = bind-eq-ok (require (j.marshal m) _) _ h e in
    let (o, h₁, opt, e₁) = bind-eq-ok (with_security out c.config (200 ∷ 201 ∷ [])) _ h₀ e₀ in
    let (sent, h₂, done, e₂) =
      bind-eq-ok (send out o put (manifest_query c tag) none payload) _ h₁ e₁ in
    let (accepted, same) = with_security_lem out c.config _ h₀ opt in
    let (last, code) = send-Ended out o put (manifest_query c tag) none payload h₁ done in
    let same : h₂ ≡ h' = cc in
    (
      sent.0,
      rw accepted at code,
      subst (Ended put (manifest_query c tag) (response sent.0)) same last,
    )

-- The outcome of a Push that succeeds.
push_ok :
    (out : Outside) (c : DockerRegistryClient) (s : Manifests) (j : Codec DistributionManifest)
    {A : Type 0} (pool : WorkerPool A) (tag : Bytes) (h : History) {h' : History}
    → push out c s j pool tag h ≡ (ok tt, h')
    → (any_failed pool.finished ≡ false)
      × (m : DistributionManifest) × (h₁ : History) × (push_manifest out c j tag m h₁ ≡ (ok tt, h'))
unfolding push
push_ok out c s j pool tag h e =
    let (found, h₁, asked, e₁) = bind-eq-ok (manifest_exists out c tag) _ h e in
    let (m, h₂, loaded, e₂) = bind-eq-ok (load_manifest out c s tag) _ h₁ e₁ in
    elim (Bool-cases (any_failed pool.finished)) [
      | inl failed ↦ let x = rw failed at e₂ in cc
      | inr clean ↦ (clean, m, h₂, rw clean at e₂)
    ]

module _ (c : DockerRegistryClient) (s : Layers) (ms : Manifests) (j : Codec DistributionManifest)
    (steady : IsSteady s) (workers : 0 < c.config.concurrency) where
  -- Push of an image whose manifest is in the store, with at least one worker and a task for each
  -- digest to push, which end in any order, each with what its run of pushLayerWithBackoff gives: if
  -- it succeeds, every layer of the manifest and its configuration has a task, for it or for a layer
  -- with the same hex, that got no error and whose own exchanges show the layer found in the registry,
  -- or uploaded whole and committed; and the last request of Push is that for the manifest, accepted.
  -- This is where in the exchanges of the tasks no request that was refused had any of its body read
  -- (otherwise a retry sends the rest only) and each that was accepted had it read whole, and where
  -- the layers of the store do not change meanwhile.
  pub push_complete :
      (out : Outside) (tag content : Bytes) (m : DistributionManifest) (tasks : List Task)
      (pool : WorkerPool Task) (h : History) {h' : History}
      → ms.store_reader c.repository tag ≡ some content
      → ms.unmarshal_json content ≡ some m
      → map (λ (t : Task). t.digest) tasks ≡ push_tasks m
      → ((t : Task) → In t tasks → reads_once t.out (exchanges c s t) ≡ true)
      → Reach (TaskRuns c s) (new_worker_pool c.config.concurrency tasks) pool
      → IsDone pool
      → push out c ms j pool tag h ≡ (ok tt, h')
      → ((d : Bytes)
          → In d m.layers ⊎ (d ≡ m.config)
          → (t : Task) × In t tasks
            × (hex t.digest ≡ hex d)
            × TaskRuns c s t false
            × IsPushed c s t)
        × ((r : Response) × (mem_code r.code (200 ∷ 201 ∷ []) ≡ true)
            × Ended put (manifest_query c tag) (response r) h')
  push_complete out tag content m tasks pool h stored parsed cover once reach done e =
      let (clean, m', h₁, manifest) = push_ok out c ms j pool tag h e in
      (
        (λ d i.
            let (l, same, n) = push_tasks-In m i in
            let (t, given, is) = task_of tasks (rw (← cover) at n) in
            let ran =
              IsDone_complete (TaskRuns c s) c.config.concurrency tasks workers reach done clean t
                given in
            (t, given, ap hex is ∙ same, ran, TaskRuns-IsPushed c s steady t (once t given) ran)),
        push_manifest-put out c j tag m' h₁ manifest,
      )

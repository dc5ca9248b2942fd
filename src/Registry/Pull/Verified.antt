-- ===== src/Registry/Pull/Verified.antt =====
-- What a pull of a layer leaves in the store.
use makisu.Base.{
  zero, suc, drop, ◌++◌, append-nil, ℕ, Bool, true, false, none, some, [], ◌∷◌, Bytes, bytes_eq,
  bytes_eq_refl, bytes_eq_iff, sym, ap, subst, ◌∙◌, ◌≢◌, Result, ok, err, if◌then◌else◌, ◌≡◌, refl,
  length, arith, Bool-cases, inl, inr, ◌⊎◌,
}
use makisu.Cache.{hex}
use makisu.FileStore.{FileStore, stat_file, overwrite}
use makisu.FileStore.View.{
  view, IsInStep, run_lem, create, write, move, run, spec, read_file-present, stat_file-absent,
}
use makisu.Registry.Http.{History, Outside, Response}
use makisu.Registry.Client.{DockerRegistryClient}
use makisu.Registry.Pull.{
  LayerTarStore, not_verified, copy_failed, Pulled, behind, next, save_layer, store_layer,
  fetch_layer, pull_layer,
}

drop_empty : (n : ℕ) → drop n [] ≡ []
unfolding drop
drop_empty zero = refl
drop_empty (suc n) = refl

pub overwrite_empty : (s : Bytes) → overwrite s [] ≡ s
overwrite_empty s = ap (λ t. s ++ t) (drop_empty (length s)) ∙ append-nil s

Pair-cases :
    {E A S : Type 0} (p : Result E A × S)
    → ((a : A) × (s : S) × (p ≡ (ok a, s))) ⊎ ((e : E) × (s : S) × (p ≡ (err e, s)))
Pair-cases (ok a, s) = inl (a, s, refl)
Pair-cases (err e, s) = inr (e, s, refl)

module _ (l : LayerTarStore) (digest_of : Bytes → Bytes)
    (apart : bytes_eq l.download_state l.cache_state ≡ false) (digest : Bytes) where
  -- The rest of store_layer, behind the copy of the body.
  abbrev behind_copy : Bool → FileStore → Pulled ℕ
  behind_copy broken st =
      if broken
      then (err copy_failed, st)
      else next (save_layer l digest_of digest st) λ x st₁.
        behind (stat_file st₁ (l.download_state ∷ l.cache_state ∷ []) (hex digest))
          λ n st₂. (ok n, st₂)

  filled :
      (resp : Response) (st : FileStore)
      → IsInStep st
      → view st (hex digest) ≡ none
      → (st' : FileStore) × IsInStep st'
        × (view st' (hex digest) ≡ some (l.download_state, resp.body))
        × (store_layer l digest_of digest resp st ≡ behind_copy resp.broken st')
  unfolding store_layer run spec
  filled resp st v e =
      let d = l.download_state in
      let (st₁, made, v₁, e₁) =
        run_lem st (d ∷ []) (hex digest) (create d 0) none (some (d, [])) (ok tt) v e refl in
      let (st₂, copied, v₂, e₂) =
        run_lem st₁ (d ∷ []) (hex digest) (write resp.body) (some (d, [])) (some (d, resp.body))
          (ok tt) v₁ e₁ (rw (bytes_eq_refl d, overwrite_empty resp.body) refl) in
      (st₂, v₂, e₂, rw (made, copied) refl)

  -- The verification of a filled download file.
  module _ (st : FileStore) (body : Bytes) (v : IsInStep st)
      (e : view st (hex digest) ≡ some (l.download_state, body)) where
    saved_not :
        bytes_eq (digest_of body) digest ≡ false
        → save_layer l digest_of digest st ≡ (err not_verified, st)
    unfolding save_layer
    saved_not bad =
        let (content, size) =
          read_file-present st (l.download_state ∷ []) (hex digest) v l.download_state body e
            (ground (arith, bytes_eq_refl l.download_state)) in
        rw (content, bad)

    saved :
        bytes_eq (digest_of body) digest ≡ true
        → (st' : FileStore) × IsInStep st'
          × (view st' (hex digest) ≡ some (l.cache_state, body))
          × (save_layer l digest_of digest st ≡ (ok tt, st'))
    unfolding save_layer run spec
    saved good =
        let d = l.download_state in
        let (content, size) =
          read_file-present st (d ∷ []) (hex digest) v d body e (ground (arith, bytes_eq_refl d)) in
        let (st', moved, v', e') =
          run_lem st (d ∷ []) (hex digest) (move l.cache_state) (some (d, body))
            (some (l.cache_state, body)) (ok tt) v e (ground (arith, bytes_eq_refl d, apart)) in
        (st', v', e', rw (content, good, moved) refl)

    saved_end :
        bytes_eq (digest_of body) digest ≡ true
        → (st' : FileStore) × IsInStep st'
          × (view st' (hex digest) ≡ some (l.cache_state, body))
          × (next (save_layer l digest_of digest st) (λ x st₁.
                behind
                  (stat_file st₁ (l.download_state ∷ l.cache_state ∷ []) (hex digest))
                  λ n st₂. (ok n, st₂))
              ≡ (ok (length body), st'))
    saved_end good =
        let (st', v', e', is) = saved good in
        let (content, size) =
          read_file-present st' (l.download_state ∷ l.cache_state ∷ []) (hex digest) v'
            l.cache_state body e' (ground (arith, bytes_eq_refl l.cache_state)) in
        (st', v', e', rw (is, size) refl)

  -- What it is for the store to hold the layer, verified.
  abbrev pub IsStored : Bytes → ℕ → FileStore → Type 0
  IsStored body size st =
      IsInStep st
      × (view st (hex digest) ≡ some (l.cache_state, body))
      × (digest_of body ≡ digest)
      × (size ≡ length body)

  stored_end :
      (broken : Bool) (body : Bytes) (st : FileStore)
      → IsInStep st
      → view st (hex digest) ≡ some (l.download_state, body)
      → {size : ℕ} {st' : FileStore} → behind_copy broken st ≡ (ok size, st')
      → IsStored body size st'
  stored_end true body st v e k = cc
  stored_end false body st v e {size = size} {st' = st'} k =
      elim (Bool-cases (bytes_eq (digest_of body) digest)) [
        | inr bad ↦ let x = rw (saved_not st body v e bad) at k in cc
        | inl good ↦
            let (st₁, v₁, e₁, ended) = saved_end st body v e good in
            let same : st₁ ≡ st' = (let x = rw ended at k in cc) in
            let sizes : size ≡ length body = (let x = rw ended at k in cc) in
            (
              subst IsInStep same v₁,
              subst (λ t. view t (hex digest) ≡ some (l.cache_state, body)) same e₁,
              (bytes_eq_iff (digest_of body) digest).0 good,
              sizes,
            )
      ]

  mismatch_end :
      (broken : Bool) (body : Bytes) (st : FileStore)
      → IsInStep st
      → view st (hex digest) ≡ some (l.download_state, body)
      → broken ≡ false
      → bytes_eq (digest_of body) digest ≡ false
      → behind_copy broken st ≡ (err not_verified, st)
  mismatch_end true body st v e whole bad = cc
  mismatch_end false body st v e whole bad = rw (saved_not st body v e bad)

  stored :
      (resp : Response) (st : FileStore)
      → IsInStep st
      → view st (hex digest) ≡ none
      → {size : ℕ} {st' : FileStore} → store_layer l digest_of digest resp st ≡ (ok size, st')
      → IsStored resp.body size st'
  stored resp st v e k =
      let (st₁, v₁, e₁, is) = filled resp st v e in
      stored_end resp.broken resp.body st₁ v₁ e₁ (sym is ∙ k)

  module _ (out : Outside) (c : DockerRegistryClient) where
    -- A pull that succeeds, of a layer that the store has in neither state, got a response to its
    -- request for the layer; the body of that response, unchanged, is then in the cache under the
    -- layer's name, its digest is that of the layer, and its length is the size that the pull returns.
    pub pull_layer-IsStored :
        (st : FileStore) (h : History)
        → IsInStep st
        → view st (hex digest) ≡ none
        → {size : ℕ} {st' : FileStore} {h' : History}
        → pull_layer out c l digest_of digest st h ≡ ((ok size, st'), h')
        → (resp : Response) × (fetch_layer out c digest h ≡ (ok resp, h'))
          × IsStored resp.body size st'
    unfolding pull_layer
    pull_layer-IsStored st h v e k =
        let absent = stat_file-absent st (l.download_state ∷ l.cache_state ∷ []) (hex digest) v e in
        elim (Pair-cases (fetch_layer out c digest h)) [
          | inl (resp, h₁, got) ↦
              let x = rw (absent, got) at k in
              (
                resp,
                got ∙ ap (λ (p : Pulled ℕ × History). (ok resp, p.1)) x,
                stored resp st v e (ap (λ (p : Pulled ℕ × History). p.0) x),
              )
          | inr (f, h₁, failed) ↦ let x = rw (absent, failed) at k in cc
        ]

    -- A layer whose bytes have another digest is not stored, but they stay as a download file, and so
    -- every later pull of the layer says that it is there.
    pub pull_layer_mismatch :
        (st : FileStore) (h : History) (resp : Response) (h' : History)
        → IsInStep st
        → view st (hex digest) ≡ none
        → fetch_layer out c digest h ≡ (ok resp, h')
        → resp.broken ≡ false
        → digest_of resp.body ≢ digest
        → (st' : FileStore) × (pull_layer out c l digest_of digest st h
            ≡ ((err not_verified, st'), h'))
          × (view st' (hex digest) ≡ some (l.download_state, resp.body))
          × ((k : History)
              → pull_layer out c l digest_of digest st' k ≡ ((ok (length resp.body), st'), k))
    unfolding pull_layer
    pull_layer_mismatch st h resp h' v e got whole bad =
        let absent = stat_file-absent st (l.download_state ∷ l.cache_state ∷ []) (hex digest) v e in
        let (st₁, v₁, e₁, is) = filled resp st v e in
        let (content, size) =
          read_file-present st₁ (l.download_state ∷ l.cache_state ∷ []) (hex digest) v₁
            l.download_state resp.body e₁ (ground (arith, bytes_eq_refl l.download_state)) in
        let differs : bytes_eq (digest_of resp.body) digest ≡ false =
          ground (arith, bytes_eq_iff (digest_of resp.body) digest) in
        let refused = mismatch_end resp.broken resp.body st₁ v₁ e₁ whole differs in
        (st₁, rw (absent, got, is, refused) refl, e₁, λ k. rw size refl)

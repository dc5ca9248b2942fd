-- ===== src/Registry/Chunks.antt =====
-- The chunks of an upload: the loop ends.
use makisu.Base.{
  ℕ, zero, suc, Bool, true, false, Option, none, some, List, Bytes, Result, ok, err, if◌then◌else◌,
  ◌==◌, ltb, ◌≡◌, ◌⊎◌, ◌≢◌, refl, ◌+◌, ◌-◌, ◌*◌, ◌<◌, ◌≤◌, arith, Bool-cases, inl, inr,
}
use makisu.Cache.{hex}
use makisu.Registry.Http.{
  History, Outside, Method, Answer, response, failure, finish, SendOptions, SendError, out_of_fuel,
  network, status, other, M, patch, send, continue, require,
}
use makisu.Registry.Upload.{
  Config, Layers, with_security, push_one_layer_chunk, push_chunks, chunk_of, push_layer_content,
  min, upload_codes,
}

-- Stopped by the model's own bound.
abbrev pub ran_out {ℓ} : {A : Type ℓ} → Result SendError A → Bool
ran_out (err out_of_fuel) = true
ran_out (err (network)) = false
ran_out (err (status c)) = false
ran_out (err (other s)) = false
ran_out (ok a) = false

abbrev pub Ends {ℓ} : {A : Type ℓ} → Result SendError A × History → Type 0
Ends t = ran_out t.0 ≡ false

bind-Ends {ℓ κ} :
    {A : Type ℓ} {B : Type κ} (t : Result SendError A × History) (f : A → M B)
    → Ends t
    → ((a : A) (h : History) → Ends (f a h))
    → Ends (continue t f)
bind-Ends (ok a, h) f e k = k a h
bind-Ends (err out_of_fuel, h) f e k = e
bind-Ends (err network, h) f e k = refl
bind-Ends (err (status c), h) f e k = refl
bind-Ends (err (other s), h) f e k = refl

finish-Ends : (o : SendOptions) (t : Answer × Bytes × History) → Ends (finish o t)
finish-Ends o (failure, b, h) = refl
finish-Ends o (response r, b, h) = ground arith

require-Ends {ℓ} : {A : Type ℓ} (o : Option A) (e : Bytes) (h : History) → Ends (require o e h)
require-Ends none e h = refl
require-Ends (some a) e h = refl

chunk_of-pos : (o : Option ℕ) (size : ℕ) → o ≢ some 0 → 0 < size → 0 < chunk_of o size
unfolding chunk_of
chunk_of-pos none size h p = p
chunk_of-pos (some zero) size h p = absurd (h refl)
chunk_of-pos (some (suc n)) size h p = omega arith

pub min_bounds : (a b : ℕ) → (min a b ≤ a) × (min a b ≤ b) × ((min a b ≡ a) ⊎ (min a b ≡ b))
unfolding min
min_bounds a b = ground arith

module _ (out : Outside) (c : Config) where
  with_security-Ends : (l : List ℕ) (h : History) → Ends (with_security out c l h)
  unfolding with_security
  with_security-Ends l h = ground arith

  send-Ends :
      (o : SendOptions) (m : Method) (url : Bytes) (range : Option (ℕ × ℕ)) (body : Bytes)
      (h : History)
      → Ends (send out o m url range body h)
  unfolding send
  send-Ends o m url range body h = elim (Bool-cases (out.is_url url)) [
    | inl is ↦ rw is (finish-Ends o _)
    | inr bad ↦ rw bad refl
  ]

  push_one_layer_chunk-Ends :
      (location : Bytes) (start stop : ℕ) (r : Bytes) (h : History)
      → Ends (push_one_layer_chunk out c location start stop r h)
  unfolding push_one_layer_chunk
  push_one_layer_chunk-Ends location start stop r h =
      bind-Ends (with_security out c upload_codes h) _ (with_security-Ends upload_codes h) λ o h₁.
        bind-Ends (send out o patch location _ _ h₁) _ (send-Ends o patch location _ _ h₁)
          λ s h₂. ground arith

  push_chunks-Ends :
      (fuel size chunk : ℕ) (location : Bytes) (start stop : ℕ) (r : Bytes) (h : History)
      → (0 < size → 0 < chunk)
      → start ≤ stop
      → stop ≤ size
      → stop ≤ start + chunk
      → 2 * (size - start) + (if stop == start then 1 else 0) ≤ fuel
      → Ends (push_chunks out c fuel size chunk location start stop r h)
  unfolding push_chunks
  push_chunks-Ends zero size chunk location start stop r h pos le in_size in_chunk enough =
      ground arith
  push_chunks-Ends (suc fuel) size chunk location start stop r h pos le in_size in_chunk enough =
      elim (Bool-cases (ltb start size)) [
        | inr done ↦ rw done refl
        | inl more ↦ rw more (
            bind-Ends (push_one_layer_chunk out c location start stop r h) _
              (push_one_layer_chunk-Ends location start stop r h)
              λ s h₁.
                push_chunks-Ends fuel size chunk s.0 stop (min (start + chunk) size) s.1 h₁ pos
                  (omega (arith, min_bounds (start + chunk) size))
                  (omega (arith, min_bounds (start + chunk) size))
                  (omega (arith, min_bounds (start + chunk) size))
                  (ground (arith, min_bounds (start + chunk) size, pos)))
      ]

  first_round :
      (size chunk : ℕ) (location r : Bytes) (h : History)
      → (0 < size → 0 < chunk)
      → Ends (push_chunks out c (2 * size + 1) size chunk location 0 (min chunk size) r h)
  first_round size chunk location r h pos =
      let b = min_bounds chunk size in
      push_chunks-Ends (2 * size + 1) size chunk location 0 (min chunk size) r h pos (omega arith)
        b.1 (omega (arith, b)) (ground arith)

  -- An upload in chunks of at least one byte, or whole, ends within the rounds that the model gives
  -- its loop, whatever the registry answers to each of its requests.
  pub push_layer_content-Ends :
      (s : Layers) (digest location : Bytes) (h : History)
      → c.push_chunk ≢ some 0
      → Ends (push_layer_content out c s digest location h)
  unfolding push_layer_content
  push_layer_content-Ends s digest location h pos =
      bind-Ends (require (s.store_stat (hex digest)) _ h) _ (require-Ends _ _ h) λ size h₁.
        bind-Ends (require (s.store_reader (hex digest)) _ h₁) _ (require-Ends _ _ h₁) λ r h₂.
          first_round size (chunk_of c.push_chunk size) location r h₂
            (chunk_of-pos c.push_chunk size pos)

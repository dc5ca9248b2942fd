-- ===== src/Registry/Transport.antt =====
-- What the transport reads of the bodies of requests. Send transmits a request again with what is
-- left of its body: the uploads are whole where no request was transmitted again with less.
use makisu.Base.{
  ℕ, zero, suc, Bool, true, false, not, ◌&&◌, ◌||◌, Option, none, some, List, [], ◌∷◌, Bytes,
  Result, ok, err, if◌then◌else◌, ◌==◌, ◌+◌, ltb, ◌≡◌, refl, subst, ap, ◌∙◌, arith, length, inl,
  inr, Bool-cases, Option-cases, bytes_eq,
}
use makisu.Cache.{hex}
use makisu.Registry.Http.{
  History, Outside, Method, post, patch, Request, Answer, response, failure, SendError, SendOptions,
  M, ◌>>=◌, continue, require, mem_code, is_failure, should_retry, finish, transmit, attempt,
  send_loop, send, put,
}
use makisu.Registry.Upload.{
  Config, Layers, upload_codes, with_security, push_one_layer_chunk, push_chunks, chunk_of, min,
  push_layer_content,
}
use makisu.Registry.Client.{DockerRegistryClient, commit_codes, commit_layer}

-- The answers that begin an upload or take a chunk.
abbrev pub accepts : Method → List ℕ
accepts post = 202 ∷ []
accepts patch = upload_codes
accepts _ = []

abbrev pub is_accepted : Method → Answer → Bool
is_accepted m failure = false
is_accepted m (response r) = mem_code r.code (accepts m)

-- In these exchanges, each body was read whole by a request that was accepted, and not at all by one
-- that was refused. A transport may also have read some of a body that is then refused: a retry sends
-- only the rest.
unfoldable pub reads_once : Outside → History → Bool
reads_once out [] = true
reads_once out ((q, a) ∷ h) =
    (out.reads h q == (if is_accepted q.method a then length q.body else 0)) && reads_once out h

-- Code that only adds exchanges.
abbrev pub Grows {ℓ} : {A : Type ℓ} → Outside → M A → Type 0
Grows out m = (h : History) → reads_once out (m h).1 ≡ true → reads_once out h ≡ true

and-right : (a b : Bool) → (a && b) ≡ true → b ≡ true
and-right a b h = ground arith

module _ (out : Outside) where
  continue-reads_once {ℓ κ} :
      {A : Type ℓ} {B : Type κ} (t : Result SendError A × History) (f : A → M B)
      → ((a : A) → Grows out (f a))
      → reads_once out (continue t f).1 ≡ true
      → reads_once out t.1 ≡ true
  continue-reads_once (ok a, h) f k e = k a h e
  continue-reads_once (err x, h) f k e = e

  pub bind-Grows {ℓ κ} :
      {A : Type ℓ} {B : Type κ} (m : M A) (f : A → M B)
      → Grows out m
      → ((a : A) → Grows out (f a))
      → Grows out (m >>= f)
  bind-Grows m f g k h e = g h (continue-reads_once (m h) f k e)

  -- Back from the end of a run that succeeds to its start.
  pub reads_once-start {ℓ} :
      {A : Type ℓ} (m : M A) (h : History) {a : A} {h' : History}
      → Grows out m
      → m h ≡ (ok a, h')
      → reads_once out h' ≡ true
      → reads_once out h ≡ true
  reads_once-start m h g e r = g h (ap (λ t. reads_once out t.1) e ∙ r)

  pub require-Grows {ℓ} : {A : Type ℓ} (o : Option A) (e : Bytes) → Grows out (require o e)
  require-Grows none e h r = r
  require-Grows (some a) e h r = r

  pub if-Grows {ℓ} :
      {A : Type ℓ} (b : Bool) (m n : M A)
      → Grows out m
      → Grows out n
      → Grows out (λ h. (if b then m else n) h)
  if-Grows true m n f g = f
  if-Grows false m n f g = g

  pub transmit-Grows :
      (q : Request) (h : History)
      → reads_once out (transmit out q h).2 ≡ true
      → reads_once out h ≡ true
  unfolding transmit reads_once
  transmit-Grows q h r = and-right _ _ r

  pub attempt-Grows :
      (o : SendOptions) (q : Request) (h : History)
      → reads_once out (attempt out o q h).2 ≡ true
      → reads_once out h ≡ true
  unfolding attempt
  attempt-Grows o q h r =
      let first = transmit out q h in
      let once_more = record q { http = true; body = first.1 } in
      let test = is_failure first.0 && not q.http && not (should_retry o first.0) in
      elim (Bool-cases test) [
        | inr stay ↦ transmit-Grows q h (rw stay at r)
        | inl fall ↦ transmit-Grows q h (transmit-Grows once_more first.2 (rw fall at r))
      ]

  pub send_loop-Grows :
      (n : ℕ) (o : SendOptions) (q : Request) (h : History)
      → reads_once out (send_loop out n o q h).2 ≡ true
      → reads_once out h ≡ true
  unfolding send_loop
  send_loop-Grows zero o q h r = attempt-Grows o q h r
  send_loop-Grows (suc n) o q h r =
      let done = attempt out o q h in
      let test = (is_failure done.0 || should_retry o done.0) && not (out.elapsed done.2) in
      elim (Bool-cases test) [
        | inr stay ↦ attempt-Grows o q h (rw stay at r)
        | inl again ↦
            attempt-Grows o q h
              (send_loop-Grows n o (record q { body = done.1 }) done.2 (rw again at r))
      ]

  finish-history : (o : SendOptions) (t : Answer × Bytes × History) → (finish o t).1 ≡ t.2
  finish-history o (failure, b, h) = refl
  finish-history o (response r, b, h) = ground arith

  pub send-Grows :
      (o : SendOptions) (m : Method) (url : Bytes) (range : Option (ℕ × ℕ)) (body : Bytes)
      → Grows out (send out o m url range body)
  unfolding send
  send-Grows o m url range body h r =
      let q : Request = record {
        method = m;
        url = url;
        http = not o.tls && out.is_http url;
        content_range = range;
        body = body;
      } in
      elim (Bool-cases (out.is_url url)) [
        | inl is ↦ send_loop-Grows o.retries o q h (
            subst (λ x. reads_once out x ≡ true) (finish-history o (send_loop out o.retries o q h))
              (rw is at r))
        | inr bad ↦ rw bad at r
      ]

  module _ (c : Config) where
    pub with_security-Grows : (l : List ℕ) → Grows out (with_security out c l)
    unfolding with_security
    with_security-Grows l h r = elim (Option-cases (out.security h)) [
      | inl fails ↦ rw fails at r
      | inr (tls, is) ↦ rw is at r
    ]

    pub push_one_layer_chunk-Grows :
        (location : Bytes) (start stop : ℕ) (r : Bytes)
        → Grows out (push_one_layer_chunk out c location start stop r)
    unfolding push_one_layer_chunk
    push_one_layer_chunk-Grows location start stop r =
        bind-Grows (with_security out c upload_codes) _ (with_security-Grows upload_codes) λ o.
          bind-Grows (send out o patch location _ _) _ (send-Grows o patch location _ _)
            λ s. if-Grows (bytes_eq s.0.location []) _ _ (λ h e. e) (λ h e. e)

    pub push_chunks-Grows :
        (fuel size chunk : ℕ) (location : Bytes) (start stop : ℕ) (r : Bytes)
        → Grows out (push_chunks out c fuel size chunk location start stop r)
    unfolding push_chunks
    push_chunks-Grows zero size chunk location start stop r =
        if-Grows (ltb start size) _ _ (λ h e. e) (λ h e. e)
    push_chunks-Grows (suc fuel) size chunk location start stop r =
        if-Grows (ltb start size) _ _
          (bind-Grows (push_one_layer_chunk out c location start stop r) _
            (push_one_layer_chunk-Grows location start stop r)
            λ s. push_chunks-Grows fuel size chunk s.0 stop (min (start + chunk) size) s.1)
          (λ h e. e)

    pub push_layer_content-Grows :
        (s : Layers) (digest location : Bytes)
        → Grows out (push_layer_content out c s digest location)
    unfolding push_layer_content
    push_layer_content-Grows s digest location =
        bind-Grows (require (s.store_stat (hex digest)) _) _ (require-Grows _ _) λ size.
          bind-Grows (require (s.store_reader (hex digest)) _) _ (require-Grows _ _)
            λ r. push_chunks-Grows _ size (chunk_of c.push_chunk size) location 0 _ r

  pub commit_layer-Grows :
      (c : DockerRegistryClient) (url : Bytes) → Grows out (commit_layer out c url)
  unfolding commit_layer
  commit_layer-Grows c url =
      bind-Grows (with_security out c.config commit_codes) _
        (with_security-Grows c.config commit_codes)
        λ o. bind-Grows (send out o put url none []) _ (send-Grows o put url none []) λ s h e. e

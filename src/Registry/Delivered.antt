-- ===== src/Registry/Delivered.antt =====
-- What a push of a layer that succeeds has done.
use makisu.Base.{
  ℕ, zero, suc, true, ◌&&◌, ◌||◌, not, Option, none, some, [], ◌∷◌, Bytes, ok, ◌≡◌, refl, codes,
  bytes_eq, arith, subst, ap, ◌∙◌, ◌⊎◌, inl, inr, Bool-cases,
}
use makisu.Cache.{hex}
use makisu.Registry.Http.{
  History, Outside, M, Method, Request, Answer, Response, response, SendOptions, ◌>>=◌, bind-eq-ok,
  require, require-ok, head, post, put, send, transmit, attempt, send_loop, mem_code, is_failure,
  should_retry,
}
use makisu.Registry.Upload.{Layers, with_security, push_layer_content}
use makisu.Registry.Transport.{
  Grows, reads_once, reads_once-start, bind-Grows, require-Grows, push_layer_content-Grows,
  commit_layer-Grows,
}
use makisu.Registry.Session.{session, finish-ok, send-post, send-put}
use makisu.Registry.Content.{push_layer_content-session, IsSteady, with_security_lem}
use makisu.Registry.Client.{
  DockerRegistryClient, layer_query, start_query, layer_exists, commit_codes, commit_layer,
  upload_layer, push_layer_helper,
}

-- The last exchange is a request of this method for this URL, and this is its answer.
abbrev pub Ended : Method → Bytes → Answer → History → Type 0
Ended m url a h =
    (q : Request) × (h₁ : History) × (h ≡ (q, a) ∷ h₁) × (q.method ≡ m) × (q.url ≡ url)

module _ (out : Outside) where
  transmit-Ended :
      (q : Request) (h : History) → Ended q.method q.url (transmit out q h).0 (transmit out q h).2
  unfolding transmit
  transmit-Ended q h = (q, h, refl, refl, refl)

  attempt-Ended :
      (o : SendOptions) (q : Request) (h : History)
      → Ended q.method q.url (attempt out o q h).0 (attempt out o q h).2
  unfolding attempt
  attempt-Ended o q h =
      let first = transmit out q h in
      let once_more = record q { http = true; body = first.1 } in
      let test = is_failure first.0 && not q.http && not (should_retry o first.0) in
      elim (Bool-cases test) [
        | inr stay ↦ rw stay (transmit-Ended q h)
        | inl fall ↦ rw fall (transmit-Ended once_more first.2)
      ]

  send_loop-Ended :
      (n : ℕ) (o : SendOptions) (q : Request) (h : History)
      → Ended q.method q.url (send_loop out n o q h).0 (send_loop out n o q h).2
  unfolding send_loop
  send_loop-Ended zero o q h = attempt-Ended o q h
  send_loop-Ended (suc n) o q h =
      let done = attempt out o q h in
      let test = (is_failure done.0 || should_retry o done.0) && not (out.elapsed done.2) in
      elim (Bool-cases test) [
        | inr stay ↦ rw stay (attempt-Ended o q h)
        | inl again ↦ rw again (send_loop-Ended n o (record q { body = done.1 }) done.2)
      ]

  -- A Send that succeeds ends with its request, accepted.
  pub send-Ended :
      (o : SendOptions) (m : Method) (url : Bytes) (range : Option (ℕ × ℕ)) (body : Bytes)
      (h : History) {r : Response} {rest : Bytes} {h' : History}
      → send out o m url range body h ≡ (ok (r, rest), h')
      → Ended m url (response r) h' × (mem_code r.code o.accepted ≡ true)
  unfolding send
  send-Ended o m url range body h e =
      let q : Request = record {
        method = m;
        url = url;
        http = not o.tls && out.is_http url;
        content_range = range;
        body = body;
      } in
      elim (Bool-cases (out.is_url url)) [
        | inl is ↦
            let (d, a) = finish-ok o (send_loop out o.retries o q h) (rw is at e) in
            (subst (λ t. Ended m url t.0 t.2) d (send_loop-Ended o.retries o q h), a)
        | inr bad ↦ let x = rw bad at e in cc
      ]

module _ (out : Outside) (c : DockerRegistryClient) where
  -- The registry said that it has the layer, or it accepted the commit, under the layer's digest and
  -- at the last location of the upload that began last, of an upload that was the layer's content.
  abbrev pub Delivered : Layers → Bytes → History → Type 0
  Delivered s digest h =
      ((r : Response) × (r.code ≡ 200) × Ended head (layer_query c digest) (response r) h)
      ⊎ ((location : Bytes) × (url : Bytes) × (out.add_digest location digest ≡ some url)
          × (content : Bytes) × (s.store_reader (hex digest) ≡ some content)
          × (session h ≡ some (location, content))
          × (r : Response) × (mem_code r.code commit_codes ≡ true)
          × Ended put url (response r) h)

  layer_exists_found :
      (digest : Bytes) (h : History) {h' : History}
      → layer_exists out c digest h ≡ (ok true, h')
      → (r : Response) × (r.code ≡ 200) × Ended head (layer_query c digest) (response r) h'
  unfolding layer_exists mem_code
  layer_exists_found digest h {h' = h'} e =
      let (o, h₁, opt, e₁) = bind-eq-ok (with_security out c.config (200 ∷ 404 ∷ [])) _ h e in
      let (sent, h₂, done, e₂) =
        bind-eq-ok (send out o head (layer_query c digest) none []) _ h₁ e₁ in
      let (accepted, same) = with_security_lem out c.config _ h opt in
      let (last, code) = send-Ended out o head (layer_query c digest) none [] h₁ done in
      let same : h₂ ≡ h' = cc in
      (
        sent.0,
        ground (arith, rw accepted at code),
        subst (Ended head (layer_query c digest) (response sent.0)) same last,
      )

  commit_layer-put :
      (url : Bytes) (h : History) {h' : History}
      → commit_layer out c url h ≡ (ok tt, h')
      → (r : Response) × (mem_code r.code commit_codes ≡ true) × Ended put url (response r) h'
  unfolding commit_layer
  commit_layer-put url h {h' = h'} e =
      let (o, h₁, opt, e₁) = bind-eq-ok (with_security out c.config commit_codes) _ h e in
      let (sent, h₂, done, e₂) = bind-eq-ok (send out o put url none []) _ h₁ e₁ in
      let (accepted, same) = with_security_lem out c.config _ h opt in
      let (last, code) = send-Ended out o put url none [] h₁ done in
      let same : h₂ ≡ h' = cc in
      (sent.0, rw accepted at code, subst (Ended put url (response sent.0)) same last)

module _ (out : Outside) (c : DockerRegistryClient) (s : Layers) (steady : IsSteady s)
    (digest : Bytes) where
  commit_layer-session :
      (url : Bytes) (h : History) {h' : History}
      → reads_once out h' ≡ true
      → commit_layer out c url h ≡ (ok tt, h')
      → session h' ≡ session h
  unfolding commit_layer
  commit_layer-session url h {h' = h'} once e =
      let (o, h₁, opt, e₁) = bind-eq-ok (with_security out c.config commit_codes) _ h e in
      let (sent, h₂, done, e₂) = bind-eq-ok (send out o put url none []) _ h₁ e₁ in
      let (accepted, same) = with_security_lem out c.config _ h opt in
      let end : h₂ ≡ h' = cc in let kept = send-put out o url none [] h₁ (rw end once) done in cc

  -- The rest of the upload, from the location that the registry gave.
  abbrev committed : Bytes → M (Unit {0})
  committed location =
      require (out.add_digest location digest) (codes "failed to parse location") >>= λ url.
      commit_layer out c url

  abbrev rest_of_upload : Bytes → M (Unit {0})
  rest_of_upload start = push_layer_content out c.config s digest start >>= committed

  committed-Grows : (location : Bytes) → Grows out (committed location)
  committed-Grows location =
      bind-Grows out (require (out.add_digest location digest) _) _ (require-Grows out _ _)
        (commit_layer-Grows out c)

  rest_of_upload-Grows : (start : Bytes) → Grows out (rest_of_upload start)
  rest_of_upload-Grows start =
      bind-Grows out (push_layer_content out c.config s digest start) _
        (push_layer_content-Grows out c.config s digest start) committed-Grows

  behind_post :
      (start : Bytes) (h : History) {h' : History}
      → reads_once out h' ≡ true
      → session h ≡ some (start, [])
      → rest_of_upload start h ≡ (ok tt, h')
      → Delivered out c s digest h'
  behind_post start h once begun e =
      let (location, h₁, pushed, e₁) =
        bind-eq-ok (push_layer_content out c.config s digest start) _ h e in
      let (url, h₂, added, e₂) = bind-eq-ok (require (out.add_digest location digest) _) _ h₁ e₁ in
      let (is_url, same) = require-ok (out.add_digest location digest) _ h₁ added in
      let once₁ = reads_once-start out (committed location) h₁ (committed-Grows location) e₁ once in
      let (content, has, whole) =
        push_layer_content-session out c.config s steady digest start h once₁ begun pushed in
      let kept = commit_layer-session url h₂ once e₂ in
      let (r, code, last) = commit_layer-put out c url h₂ e₂ in
      inr (location, url, is_url, content, has, kept ∙ ap session same ∙ whole, r, code, last)

  upload_layer-Delivered :
      (h : History) {h' : History}
      → reads_once out h' ≡ true
      → upload_layer out c s digest h ≡ (ok tt, h')
      → Delivered out c s digest h'
  unfolding upload_layer
  upload_layer-Delivered h once e =
      let (o, h₁, opt, e₁) = bind-eq-ok (with_security out c.config (202 ∷ [])) _ h e in
      let (sent, h₂, done, e₂) = bind-eq-ok (send out o post (start_query c) none []) _ h₁ e₁ in
      let (accepted, same) = with_security_lem out c.config _ h opt in
      elim (Bool-cases (bytes_eq sent.0.location [])) [
        | inl empty ↦ let x = rw empty at e₂ in cc
        | inr there ↦
            let rest = rw there at e₂ in
            let start = sent.0.location in
            let once₂ =
              reads_once-start out (rest_of_upload start) h₂ (rest_of_upload-Grows start) rest
                once in
            behind_post start h₂ once
              (send-post out o (start_query c) none [] h₁ once₂ accepted done) rest
      ]

  -- Where no request that was refused in the run had any of its body read (otherwise a retry sends
  -- the rest only), each that was accepted had it read whole, and the layer does not change
  -- meanwhile: a push that succeeds found the layer in the registry, or uploaded exactly its bytes,
  -- in order, each chunk at the location that the answer before it gave, and committed them under the
  -- layer's digest at the last location.
  pub push_layer_helper-Delivered :
      (h : History) {h' : History}
      → reads_once out h' ≡ true
      → push_layer_helper out c s digest h ≡ (ok tt, h')
      → Delivered out c s digest h'
  unfolding push_layer_helper
  push_layer_helper-Delivered h {h' = h'} once e =
      let (found, h₁, asked, e₁) = bind-eq-ok (layer_exists out c digest) _ h e in
      elim (Bool-cases found) [
        | inl there ↦
            let same : h₁ ≡ h' = (let x = rw there at e₁ in cc) in
            inl (layer_exists_found out c digest h (rw (there, same) at asked))
        | inr missing ↦ upload_layer-Delivered h₁ once (rw missing at e₁)
      ]

-- ===== src/Registry/Content.antt =====
-- The chunks of an upload: the registry gets the layer byte by byte.
use makisu.Base.{
  ℕ, zero, suc, true, some, List, [], ◌∷◌, ◌++◌, Bytes, ok, ltb, ◌≡◌, refl, take, drop, ◌+◌, ◌-◌,
  ◌*◌, ◌≤◌, length, length-append, arith, Bool-cases, Option-cases, inl, inr, append-nil,
  append_assoc, bytes_eq, bytes_eq_refl, sym, ap, ◌∙◌,
}
use makisu.Cache.{hex}
use makisu.Registry.Http.{
  History, Outside, SendOptions, require-ok, bind-eq-ok, patch, send, require,
}
use makisu.Registry.Upload.{
  Config, Layers, with_security, push_one_layer_chunk, push_chunks, chunk_of, push_layer_content,
  min, upload_codes,
}
use makisu.Registry.Transport.{reads_once, reads_once-start, push_chunks-Grows}
use makisu.Registry.Session.{session, append_at, send-patch}
use makisu.Registry.Chunks.{min_bounds}

-- Two cuts of a slice.
take-drop : (n : ℕ) (s : Bytes) → take n s ++ drop n s ≡ s
unfolding take drop
take-drop zero s = refl
take-drop (suc n) [] = refl
take-drop (suc n) (x ∷ s) = ground (arith, take-drop n s)

length-take : (n : ℕ) (s : Bytes) → n ≤ length s → length (take n s) ≡ n
unfolding take
length-take zero s h = refl
length-take (suc n) [] h = absurd (omega arith)
length-take (suc n) (x ∷ s) h = omega (arith, length-take n s)

pub with_security_lem :
    (out : Outside) (c : Config) (l : List ℕ) (h : History) {o : SendOptions} {h' : History}
    → with_security out c l h ≡ (ok o, h')
    → (o.accepted ≡ l) × (h' ≡ h)
unfolding with_security
with_security_lem out c l h e = elim (Option-cases (out.security h)) [
  | inl fails ↦ let x = rw fails at e in cc
  | inr (tls, is) ↦ let x = rw is at e in (cc, cc)
]

-- Nothing is left once as many bytes are sent as the layer has.
all_sent :
    (sent r content : Bytes) → sent ++ r ≡ content → length content ≤ length sent → sent ≡ content
all_sent sent [] content e h = sym (append-nil sent) ∙ e
all_sent sent (x ∷ r) content e h = absurd (omega (arith, length-append sent (x ∷ r), ap length e))

-- The next chunk goes to the last location, directly behind what was sent.
append_at-next :
    (location : Bytes) (start stop : ℕ) (sent r next : Bytes)
    → length sent ≡ start
    → start ≤ stop
    → stop ≤ start + length r
    → append_at location (some (start, stop)) (take (stop - start) r) next (some (location, sent))
      ≡ some (next, sent ++ take (stop - start) r)
unfolding append_at
append_at-next location start stop sent r next at le fits =
    ground (arith, bytes_eq_refl location, length-take (stop - start) r)

-- The size of a file in the store is that of the content which is read.
abbrev pub IsSteady : Layers → Type 0
IsSteady s =
    (name : Bytes) (size : ℕ) (content : Bytes)
    → s.store_stat name ≡ some size
    → s.store_reader name ≡ some content
    → size ≡ length content

module _ (out : Outside) (c : Config) where
  push_one_layer_chunk-session :
      (location : Bytes) (start stop : ℕ) (r : Bytes) (h : History) {location' r' : Bytes}
      {h' : History}
      → reads_once out h' ≡ true
      → push_one_layer_chunk out c location start stop r h ≡ (ok (location', r'), h')
      → (r' ≡ drop (stop - start) r)
        × (session h'
            ≡ append_at location (some (start, stop)) (take (stop - start) r) location' (session h))
  unfolding push_one_layer_chunk with_security
  push_one_layer_chunk-session location start stop r h {h' = h'} once e =
      let (o, h₁, opt, e₁) = bind-eq-ok (with_security out c upload_codes) _ h e in
      let (sent, h₂, ok_sent, e₂) = bind-eq-ok (send out o patch location _ _) _ h₁ e₁ in
      let (accepted, same) = with_security_lem out c upload_codes h opt in
      elim (Bool-cases (bytes_eq sent.0.location [])) [
        | inl empty ↦ let x = rw empty at e₂ in cc
        | inr there ↦
            let x = rw there at e₂ in
            let end : h₂ ≡ h' = cc in
            let (unread, after) =
              send-patch out o location (some (start, stop)) (take (stop - start) r) h₁
                (rw end once) accepted ok_sent in
            (cc (unread), cc)
      ]

  -- What is sent and what is left make up the layer.
  chunk-session :
      (location : Bytes) (start stop : ℕ) (r : Bytes) (h : History) (sent content : Bytes)
      {location' r' : Bytes} {h' : History}
      → reads_once out h' ≡ true
      → session h ≡ some (location, sent)
      → sent ++ r ≡ content
      → length sent ≡ start
      → start ≤ stop
      → stop ≤ length content
      → push_one_layer_chunk out c location start stop r h ≡ (ok (location', r'), h')
      → (session h' ≡ some (location', sent ++ take (stop - start) r))
        × ((sent ++ take (stop - start) r) ++ r' ≡ content)
        × (length (sent ++ take (stop - start) r) ≡ stop)
  chunk-session location start stop r h sent content {location' = location'} once is cut at le
        in_size one =
      let (left, after) = push_one_layer_chunk-session location start stop r h once one in
      let fits : stop ≤ start + length r = omega (arith, length-append sent r, ap length cut) in
      let k = stop - start in
      (
        rw is at after ∙ append_at-next location start stop sent r location' at le fits,
        rw (left, append_assoc sent (take k r) (drop k r), take-drop k r) cut,
        omega (arith, length-append sent (take k r), length-take k r),
      )

  push_chunks-session :
      (fuel chunk : ℕ) (location : Bytes) (start stop : ℕ) (r : Bytes) (h : History)
      (sent content : Bytes) {location' : Bytes} {h' : History}
      → reads_once out h' ≡ true
      → session h ≡ some (location, sent)
      → sent ++ r ≡ content
      → length sent ≡ start
      → start ≤ stop
      → stop ≤ length content
      → stop ≤ start + chunk
      → push_chunks out c fuel (length content) chunk location start stop r h ≡ (ok location', h')
      → session h' ≡ some (location', content)
  unfolding push_chunks
  push_chunks-session zero chunk location start stop r h sent content once is cut at le in_size
        in_chunk e =
      elim (Bool-cases (ltb start (length content))) [
        | inl more ↦ let x = rw more at e in cc
        | inr done ↦
            let x = rw done at e in let whole = all_sent sent r content cut (ground arith) in cc
      ]
  push_chunks-session (suc fuel) chunk location start stop r h sent content once is cut at le
        in_size in_chunk e =
      elim (Bool-cases (ltb start (length content))) [
        | inr done ↦
            let x = rw done at e in let whole = all_sent sent r content cut (ground arith) in cc
        | inl more ↦
            let (next, h₁, one, e₁) =
              bind-eq-ok (push_one_layer_chunk out c location start stop r) _ h (rw more at e) in
            let b = min_bounds (start + chunk) (length content) in
            let size = length content in
            let stop' = min (start + chunk) size in
            let once₁ =
              reads_once-start out (push_chunks out c fuel size chunk next.0 stop stop' next.1) h₁
                (push_chunks-Grows out c fuel size chunk next.0 stop stop' next.1) e₁ once in
            let (after, cut', at') =
              chunk-session location start stop r h sent content once₁ is cut at le in_size one in
            push_chunks-session fuel chunk next.0 stop stop' next.1 h₁
              (sent ++ take (stop - start) r) content once after cut' at' (omega (arith, b)) b.1
              (omega (arith, b)) e₁
      ]

  -- A registry that takes a chunk only at the location it gave last and directly behind the bytes
  -- before it has the layer, byte for byte, once the upload succeeds: where a session has begun at
  -- the location, no body was read by a request that was refused, and the layer does not change
  -- between its stat and its reads.
  pub push_layer_content-session :
      (s : Layers)
      → IsSteady s
      → (digest location : Bytes) (h : History) {location' : Bytes} {h' : History}
      → reads_once out h' ≡ true
      → session h ≡ some (location, [])
      → push_layer_content out c s digest location h ≡ (ok location', h')
      → (content : Bytes) × (s.store_reader (hex digest) ≡ some content)
        × (session h' ≡ some (location', content))
  unfolding push_layer_content
  push_layer_content-session s steady digest location h once begun e =
      let (size, h₁, statted, e₁) = bind-eq-ok (require (s.store_stat (hex digest)) _) _ h e in
      let (content, h₂, opened, e₂) =
        bind-eq-ok (require (s.store_reader (hex digest)) _) _ h₁ e₁ in
      let (stat, same₁) = require-ok (s.store_stat (hex digest)) _ h statted in
      let (reader, same₂) = require-ok (s.store_reader (hex digest)) _ h₁ opened in
      let is_length = steady (hex digest) size content stat reader in
      let chunk = chunk_of c.push_chunk (length content) in
      let b = min_bounds chunk (length content) in
      let whole =
        push_chunks-session (2 * length content + 1) chunk location 0 (min chunk (length content))
          content h₂ [] content once (rw (same₂, same₁) begun) refl refl (omega arith) b.1
          (omega (arith, b)) (rw is_length at e₂) in
      (content, reader, whole)

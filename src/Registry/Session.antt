-- ===== src/Registry/Session.antt =====
-- What a registry has of an upload, told from the requests that it accepted, and how Send adds to
-- it. This is the side of the protocol that the client relies on.
use makisu.Base.{
  ℕ, zero, suc, Bool, true, false, Option, none, some, [], ◌∷◌, ◌++◌, Bytes, subst, ok,
  if◌then◌else◌, ◌==◌, ◌&&◌, ◌||◌, not, ◌≡◌, refl, ◌∙◌, ◌+◌, length, arith, drop, ◌⊎◌, inl, inr,
  Bool-cases, bytes_eq, ap,
}
use makisu.Registry.Http.{
  History, Outside, finish, Method, post, put, patch, Request, Response, Answer, response, failure,
  SendOptions, mem_code, is_failure, should_retry, transmit, attempt, send_loop, send,
}
use makisu.Registry.Upload.{upload_codes}
use makisu.Registry.Transport.{accepts, is_accepted, reads_once, transmit-Grows, send_loop-Grows}

-- Where the next chunk of an upload goes, and the bytes so far.
abbrev pub Upload : Type 0
Upload = Bytes × Bytes

-- A chunk is taken only at the location that the registry gave last, only directly behind what is
-- there, and only with as many bytes as it says.
unfoldable pub append_at : Bytes → Option (ℕ × ℕ) → Bytes → Bytes → Option Upload → Option Upload
append_at url (some (start, stop)) body next (some (location, s)) =
    if bytes_eq url location && start == length s && stop == length s + length body
    then some (next, s ++ body)
    else none
append_at _ _ _ _ _ = none

unfoldable pub begin_or_append :
    Method → Bytes → Option (ℕ × ℕ) → Bytes → Bytes → Option Upload → Option Upload
unfolding append_at
begin_or_append post url range body next s = some (next, [])
begin_or_append patch url range body next s = append_at url range body next s
begin_or_append _ url range body next s = s

abbrev pub location_of : Answer → Bytes
location_of failure = []
location_of (response r) = r.location

-- The upload that began last; `none` if none has begun, or one went wrong.
unfoldable pub session : History → Option Upload
unfolding begin_or_append
session [] = none
session ((q, a) ∷ h) =
    if is_accepted q.method a
    then begin_or_append q.method q.url q.content_range q.body (location_of a) (session h)
    else session h

-- The request was accepted and added to the session once, or it was not and the body is unread.
abbrev SentAs :
    Method → Bytes → Option (ℕ × ℕ) → Bytes → History → Answer × Bytes × History → Type 0
SentAs m url range body h t =
    ((is_accepted m t.0 ≡ true)
      × (t.1 ≡ [])
      × (session t.2 ≡ begin_or_append m url range body (location_of t.0) (session h)))
    ⊎ ((is_accepted m t.0 ≡ false) × (t.1 ≡ body) × (session t.2 ≡ session h))

abbrev Sent : Request → History → Answer × Bytes × History → Type 0
Sent q h t = SentAs q.method q.url q.content_range q.body h t

drop_all : (s : Bytes) → drop (length s) s ≡ []
unfolding drop
drop_all [] = refl
drop_all (x ∷ s) = drop_all s

drop_none : (s : Bytes) → drop 0 s ≡ s
unfolding drop
drop_none s = refl

Sent-again :
    (q : Request) (b : Bool) (h : History) (t u : Answer × Bytes × History)
    → t.1 ≡ q.body
    → session t.2 ≡ session h
    → Sent (record q { http = b; body = t.1 }) t.2 u
    → Sent q h u
Sent-again q b h t u e f (inl (a, r, s)) = inl (a, r, rw (s, e, f))
Sent-again q b h t u e f (inr (a, r, s)) = inr (a, r ∙ e, s ∙ f)

-- A request that was not accepted, and then once more with what is left of its body.
refused-Sent :
    (q : Request) (b : Bool) (h : History) (t u : Answer × Bytes × History)
    → Sent q h t
    → is_accepted q.method t.0 ≡ false
    → Sent (record q { http = b; body = t.1 }) t.2 u
    → Sent q h u
refused-Sent q b h t u (inl (a, r, s)) f v = cc
refused-Sent q b h t u (inr (a, r, s)) f v = Sent-again q b h t u r s v

and-left : (a b : Bool) → (a && b) ≡ true → a ≡ true
and-left a b h = ground arith

-- A Send that succeeds returns the answer of its last transmission, whose code is accepted.
pub finish-ok :
    (o : SendOptions) (t : Answer × Bytes × History) {r : Response} {rest : Bytes} {h : History}
    → finish o t ≡ (ok (r, rest), h)
    → (t ≡ (response r, rest, h)) × (mem_code r.code o.accepted ≡ true)
finish-ok o (failure, b, h') e = cc
finish-ok o (response s, b, h') {r = r} e = elim (Bool-cases (mem_code s.code o.accepted)) [
  | inl taken ↦ let x = rw taken at e in let same : s ≡ r = cc in (cc, rw (← same) taken)
  | inr refused ↦ let x = rw refused at e in cc
]

module _ (out : Outside) where
  transmit-Sent :
      (q : Request) (h : History)
      → reads_once out (transmit out q h).2 ≡ true
      → Sent q h (transmit out q h)
  unfolding transmit session reads_once
  transmit-Sent q h k =
      let once : out.reads h q
          ≡ (if is_accepted q.method (out.answer h q) then length q.body else 0) =
        ground (arith, k) in
      elim (Bool-cases (is_accepted q.method (out.answer h q))) [
        | inl taken ↦ inl (taken, rw (once, taken) (drop_all q.body), rw taken)
        | inr refused ↦ inr (refused, rw (once, refused) (drop_none q.body), rw refused)
      ]

  failure-refused : (m : Method) (a : Answer) → is_failure a ≡ true → is_accepted m a ≡ false
  unfolding is_failure
  failure-refused m failure h = refl
  failure-refused m (response r) h = cc

  attempt-Sent :
      (o : SendOptions) (q : Request) (h : History)
      → reads_once out (attempt out o q h).2 ≡ true
      → Sent q h (attempt out o q h)
  unfolding attempt
  attempt-Sent o q h k =
      let first = transmit out q h in
      let once_more = record q { http = true; body = first.1 } in
      let test = is_failure first.0 && not q.http && not (should_retry o first.0) in
      elim (Bool-cases test) [
        | inr stay ↦ rw stay (transmit-Sent q h (rw stay at k))
        | inl fall ↦
            let again = rw fall at k in
            rw fall (
              refused-Sent q true h first (transmit out once_more first.2)
                (transmit-Sent q h (transmit-Grows out once_more first.2 again))
                (failure-refused q.method first.0 (and-left _ _ (and-left _ _ fall)))
                (transmit-Sent once_more first.2 again))
      ]

  -- A retry is made only if the answer was not accepted.
  retry-refused :
      (o : SendOptions) (m : Method) (a : Answer)
      → ((c : ℕ) → mem_code c (accepts m) ≡ true → mem_code c o.accepted ≡ true)
      → (is_failure a || should_retry o a) ≡ true
      → is_accepted m a ≡ false
  unfolding is_failure should_retry
  retry-refused o m failure k e = refl
  retry-refused o m (response r) k e = ground (arith, k r.code)

  send_loop-Sent :
      (n : ℕ) (o : SendOptions) (q : Request) (h : History)
      → ((c : ℕ) → mem_code c (accepts q.method) ≡ true → mem_code c o.accepted ≡ true)
      → reads_once out (send_loop out n o q h).2 ≡ true
      → Sent q h (send_loop out n o q h)
  unfolding send_loop
  send_loop-Sent zero o q h k once = attempt-Sent o q h once
  send_loop-Sent (suc n) o q h k once =
      let done = attempt out o q h in
      let test = (is_failure done.0 || should_retry o done.0) && not (out.elapsed done.2) in
      elim (Bool-cases test) [
        | inr stay ↦ rw stay (attempt-Sent o q h (rw stay at once))
        | inl again ↦
            let rest = rw again at once in
            let more = record q { body = done.1 } in
            rw again (
              refused-Sent q q.http h done (send_loop out n o more done.2)
                (attempt-Sent o q h (send_loop-Grows out n o more done.2 rest))
                (retry-refused o q.method done.0 k (and-left _ _ again))
                (send_loop-Sent n o more done.2 k rest))
      ]

  -- What a Send that succeeds adds to the session, and what it leaves of its body.
  module _ (o : SendOptions) (url : Bytes) (range : Option (ℕ × ℕ)) (body : Bytes) (h : History)
      {r : Response} {rest : Bytes} {h' : History} (once : reads_once out h' ≡ true) where
    send-SentAs :
        (m : Method)
        → ((c : ℕ) → mem_code c (accepts m) ≡ true → mem_code c o.accepted ≡ true)
        → send out o m url range body h ≡ (ok (r, rest), h')
        → SentAs m url range body h (response r, rest, h') × (mem_code r.code o.accepted ≡ true)
    unfolding send
    send-SentAs m k e =
        let q : Request = record {
          method = m;
          url = url;
          http = not o.tls && out.is_http url;
          content_range = range;
          body = body;
        } in
        elim (Bool-cases (out.is_url url)) [
          | inl is ↦
              let (d, a) = finish-ok o (send_loop out o.retries o q h) (rw is at e) in
              let read = ap (λ t. reads_once out t.2) d ∙ once in
              (subst (Sent q h) d (send_loop-Sent o.retries o q h k read), a)
          | inr bad ↦ let x = rw bad at e in cc
        ]

    pub send-patch :
        o.accepted ≡ upload_codes
        → send out o patch url range body h ≡ (ok (r, rest), h')
        → (rest ≡ []) × (session h' ≡ append_at url range body r.location (session h))
    unfolding begin_or_append
    send-patch a e =
        let (sent, k) = send-SentAs patch (λ c k. rw a k) e in
        elim sent [ inl s ↦ (s.1, s.2) | inr s ↦ cc (s.0, rw a at k) ]

    pub send-post :
        o.accepted ≡ 202 ∷ []
        → send out o post url range body h ≡ (ok (r, rest), h')
        → session h' ≡ some (r.location, [])
    unfolding begin_or_append
    send-post a e =
        let (sent, k) = send-SentAs post (λ c k. rw a k) e in
        elim sent [ inl s ↦ s.2 | inr s ↦ cc (s.0, rw a at k) ]

    -- A PUT leaves it as it is.
    pub send-put : send out o put url range body h ≡ (ok (r, rest), h') → session h' ≡ session h
    unfolding begin_or_append mem_code
    send-put e =
        let (sent, k) = send-SentAs put (λ c k. ground arith) e in
        elim sent [ inl s ↦ s.2 | inr s ↦ s.2 ]

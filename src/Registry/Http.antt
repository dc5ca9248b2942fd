-- ===== src/Registry/Http.antt =====
-- lib/utils/httputil/httputil.go: Send, its retries and its errors. The history holds each request
-- that went out with what came back, the last one in front, and whatever is outside the program may
-- depend on it.
use makisu.Base.{
  ℕ, zero, suc, Bool, true, false, not, ◌&&◌, ◌||◌, Option, none, some, List, [], ◌∷◌, Bytes,
  Result, ok, err, if◌then◌else◌, ◌==◌, ◌≡◌, refl, drop,
}

pub data Method : Type 0 where
  head get post put patch : Method

-- `http` is the scheme. A range is the first byte and the one behind the last.
pub record Request : Type 0 where
  pub method : Method
  pub url : Bytes
  pub http : Bool
  pub content_range : Option (ℕ × ℕ)
  pub body : Bytes

-- An empty location stands for no such header. A broken body ends with an error behind its bytes.
pub record Response : Type 0 where
  pub code : ℕ
  pub location : Bytes
  pub content_type : Bytes
  pub body : Bytes
  pub broken : Bool

-- What `client.Do` gives.
pub data Answer : Type 0 where
  response : Response → Answer
  failure : Answer

abbrev pub History : Type 0
History = List (Request × Answer)

-- What is outside: the server and the network, how many bytes of a body the transport reads before
-- it returns, the clock (the backoff of a request, and that of the push of a layer, stop once their
-- time has passed), the package net/url, and the security options of the registry, which say whether TLS is on.
pub record Outside : Type 0 where
  pub answer : History → Request → Answer
  pub reads : History → Request → ℕ
  pub elapsed : History → Bool
  pub push_elapsed : History → Bool
  pub is_url : Bytes → Bool
  pub is_http : Bytes → Bool
  pub add_digest : Bytes → Bytes → Option Bytes
  pub security : History → Option Bool

-- The errors as `errors.As` tells them apart through each `%w`; `other` is an error without them,
-- and `out_of_fuel` no error of the program: a loop had too little fuel.
pub data SendError : Type 0 where
  network : SendError
  status : ℕ → SendError
  other : Bytes → SendError
  out_of_fuel : SendError

-- Code that sends requests.
abbrev pub M {ℓ} : Type ℓ → Type ℓ
M A = History → Result SendError A × History

abbrev pub continue {ℓ κ} :
    {A : Type ℓ} {B : Type κ}
    → Result SendError A × History
    → (A → M B)
    → Result SendError B × History
continue (ok a, h) f = f a h
continue (err e, h) f = (err e, h)

infixl 5 ◌>>=◌ ◌>>◌
abbrev pub ◌>>=◌ {ℓ κ} : {A : Type ℓ} {B : Type κ} → M A → (A → M B) → M B
◌>>=◌ m f h = continue (m h) f

abbrev pub ◌>>◌ {κ} : {B : Type κ} → M (Unit {0}) → M B → M B
m >> k = m >>= λ _. k

abbrev pub return {ℓ} : {A : Type ℓ} → A → M A
return a h = (ok a, h)

abbrev pub throw {ℓ} : {A : Type ℓ} → SendError → M A
throw e h = (err e, h)

-- `if err != nil { return fmt.Errorf("...: %s", err) }`.
abbrev pub require {ℓ} : {A : Type ℓ} → Option A → Bytes → M A
require none e = throw (other e)
require (some a) e = return a

continue-eq-ok {ℓ κ} :
    {A : Type ℓ} {B : Type κ} (m : Result SendError A × History) (f : A → M B) {b : B}
    {h' : History}
    → continue m f ≡ (ok b, h')
    → (a : A) × (h₁ : History) × (m ≡ (ok a, h₁)) × (f a h₁ ≡ (ok b, h'))
continue-eq-ok (ok a, h) f e = (a, h, refl, e)
continue-eq-ok (err x, h) f e = cc

pub bind-eq-ok {ℓ κ} :
    {A : Type ℓ} {B : Type κ} (m : M A) (f : A → M B) (h : History) {b : B} {h' : History}
    → (m >>= f) h ≡ (ok b, h')
    → (a : A) × (h₁ : History) × (m h ≡ (ok a, h₁)) × (f a h₁ ≡ (ok b, h'))
bind-eq-ok m f h e = continue-eq-ok (m h) f e

pub require-ok {ℓ} :
    {A : Type ℓ} (o : Option A) (e : Bytes) (h : History) {a : A} {h' : History}
    → require o e h ≡ (ok a, h')
    → (o ≡ some a) × (h' ≡ h)
require-ok none e h k = cc
require-ok (some a) e h k = (cc, cc)

unfoldable pub mem_code : ℕ → List ℕ → Bool
mem_code c [] = false
mem_code c (x ∷ xs) = c == x || mem_code c xs

-- StatusTooManyRequests, StatusBadGateway, StatusServiceUnavailable, StatusGatewayTimeout.
abbrev retryable_codes : List ℕ
retryable_codes = 429 ∷ 502 ∷ 503 ∷ 504 ∷ []

unfoldable pub is_retryable_code : ℕ → Bool
unfolding mem_code
is_retryable_code c = mem_code c retryable_codes

-- IsNetworkError, IsRetryable and IsStatus.
unfoldable pub is_network_error : SendError → Bool
is_network_error network = true
is_network_error _ = false

unfoldable pub is_retryable : SendError → Bool
is_retryable (status c) = is_retryable_code c
is_retryable _ = false

unfoldable pub is_status : SendError → ℕ → Bool
is_status (status c) d = c == d
is_status _ d = false

-- The options of a call: the accepted codes, and how often to try again.
pub record SendOptions : Type 0 where
  pub accepted : List ℕ
  pub retries : ℕ
  pub tls : Bool

unfoldable pub should_retry : SendOptions → Answer → Bool
should_retry o (response r) = is_retryable_code r.code && not (mem_code r.code o.accepted)
should_retry o failure = false

unfoldable pub is_failure : Answer → Bool
is_failure failure = true
is_failure (response r) = false

-- `!opts.acceptedCodes[resp.StatusCode]`.
abbrev pub outcome : SendOptions → Answer → Result SendError Response
outcome o failure = err network
outcome o (response r) = if mem_code r.code o.accepted then ok r else err (status r.code)

-- The end of Send: the response, with what is left of the body.
abbrev pub finish :
    SendOptions → Answer × Bytes × History → Result SendError (Response × Bytes) × History
finish o (a, rest, h) = continue (outcome o a, h) (λ r. return (r, rest))

module _ (out : Outside) where
  -- One `client.Do`, with what is left of the body.
  unfoldable pub transmit : Request → History → Answer × Bytes × History
  transmit q h = let a = out.answer h q in (a, drop (out.reads h q) q.body, (q, a) ∷ h)

  -- A request that fails over https is tried over http.
  unfoldable pub attempt : SendOptions → Request → History → Answer × Bytes × History
  unfolding transmit
  attempt o q h =
      let first = transmit q h in
      let second = transmit (record q { http = true; body = first.1 }) first.2 in
      if is_failure first.0 && not q.http && not (should_retry o first.0) then second else first

  -- The loop of Send. Each round reads the same body further; a retry takes one of `retries`.
  unfoldable pub send_loop : ℕ → SendOptions → Request → History → Answer × Bytes × History
  unfolding attempt
  send_loop zero o q h = attempt o q h
  send_loop (suc n) o q h =
      let done = attempt o q h in
      let again = send_loop n o (record q { body = done.1 }) done.2 in
      if (is_failure done.0 || should_retry o done.0) && not (out.elapsed done.2)
      then again
      else done

  -- Send, with what is left of the body.
  unfoldable pub send : SendOptions → Method → Bytes → Option (ℕ × ℕ) → Bytes → M (Response × Bytes)
  unfolding send_loop
  send o method url range body h =
      let q : Request = record {
        method = method;
        url = url;
        http = not o.tls && out.is_http url;
        content_range = range;
        body = body;
      } in
      let done = send_loop o.retries o q h in
      if out.is_url url then finish o done else (err (other url), h)

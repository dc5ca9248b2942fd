-- ===== src/Registry/Backoff.antt =====
-- The rounds of pushLayerWithBackoff.
use makisu.Base.{
  ℕ, zero, suc, ◌≤◌, Bool, true, false, ◌⊎◌, subst, ◌&&◌, not, List, [], ◌++◌, Bytes, Result, ok,
  err, ◌≡◌, refl, arith, inl, inr, Bool-cases, append-nil, ◌↔◌, sym, ap, ◌∙◌, append_assoc,
}
use makisu.Registry.Http.{History, Outside, SendError}
use makisu.Registry.Upload.{Layers, backoff}
use makisu.Registry.Client.{
  DockerRegistryClient, push_layer_helper, errors_of, may_retry, push_rounds,
  push_layer_with_backoff,
}

no_errors :
    (r : Result SendError (Unit {0})) (more : List SendError) → errors_of r ++ more ≡ [] → r ≡ ok tt
unfolding errors_of
no_errors (ok a) more h = refl
no_errors (err e) more h = cc

module _ (out : Outside) (c : DockerRegistryClient) (s : Layers) (digest : Bytes) where
  -- What a try gives, and the exchanges after it.
  abbrev pub result_of : History → Result SendError (Unit {0})
  result_of h = (push_layer_helper out c s digest h).0

  abbrev pub history_of : History → History
  history_of h = (push_layer_helper out c s digest h).1

  -- The exchanges after so many tries, one behind the other.
  unfoldable pub history_after : ℕ → History → History
  history_after zero h = h
  history_after (suc k) h = history_after k (history_of h)

  -- The errors of so many tries, in order.
  unfoldable pub errors_in : ℕ → History → List SendError
  unfolding errors_of
  errors_in zero h = []
  errors_in (suc k) h = errors_of (result_of h) ++ errors_in k (history_of h)

  -- A try is worth another one: its error may be tried again after, and there is time left.
  unfoldable pub goes_on : History → Bool
  unfolding may_retry
  goes_on h = not (out.push_elapsed (history_of h)) && may_retry (result_of h)

  unfoldable pub all_go_on : ℕ → History → Bool
  unfolding goes_on
  all_go_on zero h = true
  all_go_on (suc k) h = goes_on h && all_go_on k (history_of h)

  -- After k tries that are worth another one each, the try behind them is the last one: it is not,
  -- or no retries are left of n.
  abbrev pub IsLast : ℕ → ℕ → History → Type 0
  IsLast n k h =
      (k ≤ n) × (all_go_on k h ≡ true) × ((k ≡ n) ⊎ (goes_on (history_after k h) ≡ false))

  no_more-IsLast : (n : ℕ) (h : History) → (0 ≡ n) ⊎ (goes_on h ≡ false) → IsLast n 0 h
  unfolding all_go_on history_after
  no_more-IsLast n h e = (omega arith, refl, e)

  goes_on-IsLast :
      (n k : ℕ) (h : History)
      → goes_on h ≡ true
      → IsLast n k (history_of h)
      → IsLast (suc n) (suc k) h
  unfolding all_go_on history_after
  goes_on-IsLast n k h more (few, all, stop) = (
    omega (arith, few),
    rw (more, all) refl,
    (elim stop [ inl e ↦ inl (ap suc e) | inr e ↦ inr e ]),
  )

  push_rounds-errors :
      (n : ℕ) (errors : List SendError) (h : History)
      → (k : ℕ) × IsLast n k h
        × (push_rounds out c n s digest errors h
            ≡ (errors ++ errors_in (suc k) h, history_after (suc k) h))
  unfolding push_rounds errors_in history_after goes_on
  push_rounds-errors zero errors h =
      (0, no_more-IsLast 0 h (inl refl), rw (append-nil (errors_of (result_of h))) refl)
  push_rounds-errors (suc n) errors h = elim (Bool-cases (goes_on h)) [
    | inr stop ↦ (
      0,
      no_more-IsLast (suc n) h (inr stop),
      rw (stop, append-nil (errors_of (result_of h))) refl,
    )
    | inl again ↦
        let (k, last, is) =
          push_rounds-errors n (errors ++ errors_of (result_of h)) (history_of h) in
        (
          suc k,
          goes_on-IsLast n k h again last,
          rw
              (
                again,
                is,
                append_assoc errors (errors_of (result_of h)) (errors_in (suc k) (history_of h)),
              )
              refl,
        )
  ]

  errors_in_first : (k : ℕ) (h : History) → all_go_on k h ≡ true → result_of h ≡ ok tt → k ≡ 0
  unfolding all_go_on goes_on may_retry
  errors_in_first zero h e f = refl
  errors_in_first (suc k) h e f = absurd (ground (arith, rw f at e))

  -- A push with backoff tries once more after each error that may be tried again after, as long as it
  -- has time and retries left, and stops at the first try without; it then reports the errors of all
  -- of its tries, in order. So it reports none exactly if its first try succeeds: an error stays,
  -- though a later try succeeds.
  pub push_layer_with_backoff-errors :
      (h : History)
      → (k : ℕ) × IsLast (backoff c.config) k h
        × (push_layer_with_backoff out c s digest h
            ≡ (errors_in (suc k) h, history_after (suc k) h))
        × (((push_layer_with_backoff out c s digest h).0 ≡ []) ↔ (result_of h ≡ ok tt))
  unfolding push_layer_with_backoff errors_in errors_of
  push_layer_with_backoff-errors h =
      let (k, last, is) = push_rounds-errors (backoff c.config) [] h in
      (
        k,
        last,
        is,
        (
          (λ e. no_errors (result_of h) (errors_in k (history_of h)) (sym (ap (λ p. p.0) is) ∙ e)),
          (λ e. ap (λ p. p.0) is ∙ (rw (errors_in_first k h last.1 e, e) refl)),
        ),
      )

  -- The first try of a push that reports no error was the only one.
  pub push_layer_with_backoff-clean :
      (h : History)
      → (push_layer_with_backoff out c s digest h).0 ≡ []
      → push_layer_helper out c s digest h ≡ (ok tt, (push_layer_with_backoff out c s digest h).1)
  unfolding history_after
  push_layer_with_backoff-clean h e =
      let (k, last, is, first) = push_layer_with_backoff-errors h in
      let done = first.0 e in
      let once = errors_in_first k h last.1 done in
      subst (λ x. push_layer_helper out c s digest h ≡ (ok tt, x))
        (sym (ap (λ (p : List SendError × History). p.1) is ∙ (rw once refl)))
        (λ i. (done i, history_of h))

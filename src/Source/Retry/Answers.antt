-- ===== src/Source/Retry/Answers.antt =====
-- crates/rustern-core/src/source/retry.rs and source/pod_log.rs: which answers of the API end the retries.
use rustern.Common.{
  ℕ, suc, ◌+◌, ◌≤◌, ◌<◌, ◌≢◌, ◌≡◌, sym, ap, true, false, none, some, arith, leb, Result, ok, err,
  Bool-cases, inl, inr, ◌⊎◌,
}
use mathlib.Core.Option
use rustern.Source.Retry.{
  KubeError, api, other, kube_error_is_client_error, RetryError, client, exhausted, retry_answer,
  log_stream_with_retry, log_stream_with_retry-StopsAt,
}

-- An error that the API does not take back: a code from 400 to 499, but for 429 (too many requests).
abbrev pub IsRefusal : {E : Type 0} → KubeError E → Type 0
IsRefusal (api code e) = (400 ≤ code) × (code < 500) × (code ≢ 429)
IsRefusal (other e) = true ≡ false

refusal : {E : Type 0} (e : KubeError E) → kube_error_is_client_error e ≡ true → IsRefusal e
unfolding kube_error_is_client_error
refusal (api code e) h = (ground (arith, h), ground (arith, h), λ q. ground (arith, h, q))
refusal (other e) h = ground (arith, h)

no-IsRefusal :
    {E : Type 0} (e : KubeError E) → kube_error_is_client_error e ≡ false → ¬ (IsRefusal e)
unfolding kube_error_is_client_error
no-IsRefusal (api code e) h r = ground (arith, h, r.0, r.1, r.2)
no-IsRefusal (other e) h r = ground (arith, r)

module _ {S E : Type 0} where
  -- The answer of a turn ends the loop with `r`: it is a success, a refusal, or the error of the last of
  -- `max_attempts` turns.
  abbrev pub Decides : ℕ → ℕ → Result S (KubeError E) → Result S (RetryError E) → Type 0
  Decides max_attempts n (ok s) r = r ≡ ok s
  Decides max_attempts n (err e) r =
      (IsRefusal e × (r ≡ err (client e)))
      ⊎ (¬ (IsRefusal e)) × (max_attempts ≤ n + 1) × (r ≡ err (exhausted max_attempts e))

  -- The answer of a turn is an error after which the loop tries again.
  abbrev pub IsRetried : ℕ → ℕ → Result S (KubeError E) → Type 0
  IsRetried max_attempts n (ok s) = true ≡ false
  IsRetried max_attempts n (err e) = (¬ (IsRefusal e)) × (n + 1 < max_attempts)

  decides :
      (max_attempts n : ℕ) (a : Result S (KubeError E)) (r : Result S (RetryError E))
      → retry_answer max_attempts n a ≡ some r
      → Decides max_attempts n a r
  unfolding retry_answer
  decides max_attempts n (ok s) r h = sym (ap (λ o. Option.get_or o r) h)
  decides max_attempts n (err e) r h = elim (Bool-cases (kube_error_is_client_error e)) [
    | inl c ↦ inl (refusal e c, sym (ap (λ o. Option.get_or o r) (rw c at h)))
    | inr c ↦
        let h' = rw c at h in
        elim (Bool-cases (leb max_attempts (n + 1))) [
          | inl l ↦
              inr (
                no-IsRefusal e c,
                ground (arith, l),
                sym (ap (λ o. Option.get_or o r) (rw l at h')),
              )
          | inr l ↦ absurd (ground (arith, rw l at h'))
        ]
  ]

  retried :
      (max_attempts n : ℕ) (a : Result S (KubeError E))
      → retry_answer max_attempts n a ≡ none
      → IsRetried max_attempts n a
  unfolding retry_answer
  retried max_attempts n (ok s) h = ground (arith, h)
  retried max_attempts n (err e) h = elim (Bool-cases (kube_error_is_client_error e)) [
    | inl c ↦ absurd (ground (arith, rw c at h))
    | inr c ↦
        let h' = rw c at h in
        elim (Bool-cases (leb max_attempts (n + 1))) [
          | inl l ↦ absurd (ground (arith, rw l at h'))
          | inr l ↦ (no-IsRefusal e c, ground (arith, l))
        ]
  ]

  -- The answer at turn `n` ends the loop with `r`, and after each earlier one from `attempt` on the loop
  -- tries again.
  pub record DecidesAt (answers : ℕ → Result S (KubeError E)) (max_attempts attempt n : ℕ)
      (r : Result S (RetryError E)) : Type 0 where
    pub late : attempt ≤ n
    pub in_time : suc n ≤ max_attempts
    pub decisive : Decides max_attempts n (answers n) r
    pub first : (m : ℕ) → attempt ≤ m → suc m ≤ n → IsRetried max_attempts m (answers m)

  -- With a turn for each attempt the loop ends: with the first answer that is a success, an API error with
  -- a code from 400 to 499 other than 429, or the error of the last attempt.
  pub log_stream_with_retry-DecidesAt :
      (answers : ℕ → Result S (KubeError E)) (max_attempts fuel attempt : ℕ)
      → max_attempts ≤ attempt + fuel
      → suc attempt ≤ max_attempts
      → (n : ℕ) × (r : Result S (RetryError E)) × (log_stream_with_retry answers max_attempts fuel
            attempt
          ≡ some r)
        × DecidesAt answers max_attempts attempt n r
  log_stream_with_retry-DecidesAt answers max_attempts fuel attempt h k =
      let (n, r, p, d) = log_stream_with_retry-StopsAt answers max_attempts fuel attempt h k in
      (
        n,
        r,
        p,
        record {
          late = d.late;
          in_time = d.in_time;
          decisive = decides max_attempts n (answers n) r d.decisive;
          first = λ m l u. retried max_attempts m (answers m) (d.first m l u);
        },
      )

-- ===== src/Source/Retry.antt =====
-- crates/rustern-core/src/source/retry.rs, and the retries of source/pod_log.rs.
pub mod Answers
use rustern.Common.{
  ℕ, zero, suc, ◌+◌, ◌*◌, ◌^◌, ◌≤◌, ◌<◌, ◌≢◌, ◌≡◌, refl, sym, ap, Bool, true, false, not, ◌&&◌,
  Option, none, some, arith, if◌then◌else◌, leb, ltb, nat_beq, min, Result, ok, err, Bool-cases,
  inl, inr, ◌⊎◌, Option-cases,
}
use mathlib.Core.Option

abbrev pub max_backoff_ms : ℕ
max_backoff_ms = 30_000

abbrev pub u64_max : ℕ
u64_max = 18_446_744_073_709_551_615

-- The cap of the delay; the multiplication saturates at the largest `u64`.
unfoldable pub backoff_cap : ℕ → ℕ → ℕ
backoff_cap base_ms attempt = min (min (base_ms * 2 ^ min attempt 8) u64_max) max_backoff_ms

-- `random lo hi` is `fastrand::u64(lo..=hi)`.
unfoldable pub full_jitter_backoff : (ℕ → ℕ → ℕ) → ℕ → ℕ → ℕ
unfolding backoff_cap
full_jitter_backoff random base_ms attempt =
    let cap = backoff_cap base_ms attempt in if nat_beq cap 0 then 0 else random 0 cap

jitter-le :
    (random : ℕ → ℕ → ℕ) (cap m b : ℕ)
    → ((lo hi : ℕ) → lo ≤ hi → random lo hi ≤ hi)
    → cap ≤ m
    → cap ≤ b
    → ((if nat_beq cap 0 then 0 else random 0 cap) ≤ m)
      × ((if nat_beq cap 0 then 0 else random 0 cap) ≤ b)
jitter-le random cap m b r hm hb = elim (Bool-cases (nat_beq cap 0)) [
  | inl e ↦ rw e (omega arith, omega arith)
  | inr n ↦ rw n (omega (arith, r 0 cap), omega (arith, r 0 cap))
]

-- A delay is at most thirty seconds, and at most the base doubled once for each attempt.
pub full_jitter_backoff-le :
    (random : ℕ → ℕ → ℕ) (base_ms attempt : ℕ)
    → ((lo hi : ℕ) → lo ≤ hi → random lo hi ≤ hi)
    → (full_jitter_backoff random base_ms attempt ≤ max_backoff_ms)
      × (full_jitter_backoff random base_ms attempt ≤ base_ms * 2 ^ min attempt 8)
unfolding full_jitter_backoff backoff_cap
full_jitter_backoff-le random base_ms attempt r =
    let bound = base_ms * 2 ^ min attempt 8 in
    jitter-le random (min (min bound u64_max) max_backoff_ms) max_backoff_ms bound r (omega arith)
      (omega arith)

-- `kube::Error`: the code of an API error, or another failure. `E` has the text of an error.
pub data KubeError (E : Type 0) : Type 0 where
  api : ℕ → E → KubeError E
  other : E → KubeError E

unfoldable pub kube_error_is_client_error : {E : Type 0} → KubeError E → Bool
kube_error_is_client_error (api code e) = leb 400 code && ltb code 500 && not (nat_beq code 429)
kube_error_is_client_error (other e) = false

-- What `log_stream_with_retry` ends with: a client error, or the last of `max_attempts` errors.
pub data RetryError (E : Type 0) : Type 0 where
  client : KubeError E → RetryError E
  exhausted : ℕ → KubeError E → RetryError E

le_or_more : (a b : ℕ) → (a ≤ b) ⊎ (suc b ≤ a)
le_or_more a b = ground arith

module _ {S E : Type 0} where
  -- One answer of the loop at `attempt`: `none` is to try again.
  unfoldable pub retry_answer : ℕ → ℕ → Result S (KubeError E) → Option (Result S (RetryError E))
  retry_answer max_attempts attempt (ok s) = some (ok s)
  retry_answer max_attempts attempt (err e) =
      if kube_error_is_client_error e
      then some (err (client e))
      else if leb max_attempts (attempt + 1)
      then some (err (exhausted max_attempts e))
      else none

  first_answer :
      (ℕ → Option (Result S (RetryError E)))
      → ℕ
      → Option (Result S (RetryError E))
      → Option (Result S (RetryError E))
  first_answer next attempt none = next (attempt + 1)
  first_answer next attempt (some r) = some r

  -- The loop from `attempt` on, with `fuel` turns; `answers` are those of the API, turn by turn. The
  -- delay before turn `n + 1` is `full_jitter_backoff 200 n`.
  unfoldable pub log_stream_with_retry :
      (ℕ → Result S (KubeError E)) → ℕ → ℕ → ℕ → Option (Result S (RetryError E))
  unfolding retry_answer first_answer
  log_stream_with_retry answers max_attempts zero attempt = none
  log_stream_with_retry answers max_attempts (suc fuel) attempt =
      first_answer (λ n. log_stream_with_retry answers max_attempts fuel n) attempt
        (retry_answer max_attempts attempt (answers attempt))

  -- The answer at turn `n` ends the loop, and no earlier one from `attempt` on does.
  record StopsAt (answers : ℕ → Result S (KubeError E)) (max_attempts attempt n : ℕ)
      (r : Result S (RetryError E)) : Type 0 where
    pub late : attempt ≤ n
    pub in_time : suc n ≤ max_attempts
    pub decisive : retry_answer max_attempts n (answers n) ≡ some r
    pub first : (m : ℕ) → attempt ≤ m → suc m ≤ n → retry_answer max_attempts m (answers m) ≡ none

  retry_answer-last :
      (max_attempts attempt : ℕ) (a : Result S (KubeError E))
      → max_attempts ≤ attempt + 1
      → retry_answer max_attempts attempt a ≡ none
      → true ≡ false
  unfolding retry_answer
  retry_answer-last max_attempts attempt (ok s) h e = ground arith
  retry_answer-last max_attempts attempt (err x) h e =
      let last : leb max_attempts (attempt + 1) ≡ true = ground arith in
      elim (Bool-cases (kube_error_is_client_error x)) [
        | inl c ↦ ground arith
        | inr n ↦ ground arith
      ]

  earlier :
      (answers : ℕ → Result S (KubeError E)) (max_attempts attempt n : ℕ)
      → retry_answer max_attempts attempt (answers attempt) ≡ none
      → ((m : ℕ) → attempt + 1 ≤ m → suc m ≤ n → retry_answer max_attempts m (answers m) ≡ none)
      → (m : ℕ) → attempt ≤ m
      → suc m ≤ n
      → retry_answer max_attempts m (answers m) ≡ none
  earlier answers max_attempts attempt n e rest m l u = elim (Bool-cases (nat_beq attempt m)) [
    | inl same ↦ let p : attempt ≡ m = ground arith in rw⁻¹ p e
    | inr n' ↦ rest m (ground arith) u
  ]

  -- With a turn for each attempt the loop ends: with the first answer that is a success, a client error
  -- or the error of the last attempt.
  log_stream_with_retry-StopsAt :
      (answers : ℕ → Result S (KubeError E)) (max_attempts fuel attempt : ℕ)
      → max_attempts ≤ attempt + fuel
      → suc attempt ≤ max_attempts
      → (n : ℕ) × (r : Result S (RetryError E)) × (log_stream_with_retry answers max_attempts fuel
            attempt
          ≡ some r)
        × StopsAt answers max_attempts attempt n r
  unfolding log_stream_with_retry first_answer
  log_stream_with_retry-StopsAt answers max_attempts zero attempt h k = absurd (omega arith)
  log_stream_with_retry-StopsAt answers max_attempts (suc fuel) attempt h k =
      elim (Option-cases (retry_answer max_attempts attempt (answers attempt))) [
        | inr (r, e) ↦ (
          attempt,
          r,
          rw e refl,
          record {
            late = omega arith;
            in_time = k;
            decisive = e;
            first = λ m l u. absurd (omega arith);
          },
        )
        | inl e ↦ elim (le_or_more max_attempts (attempt + 1)) [
          | inl last ↦
              absurd
                (ground (arith, retry_answer-last max_attempts attempt (answers attempt) last e))
          | inr more ↦
              let (n, r, p, d) =
                log_stream_with_retry-StopsAt answers max_attempts fuel (attempt + 1) (omega arith)
                  (omega arith) in
              (
                n,
                r,
                rw e p,
                record {
                  late = omega (arith, d.late);
                  in_time = d.in_time;
                  decisive = d.decisive;
                  first = λ m l u. earlier answers max_attempts attempt n e d.first m l u;
                },
              )
        ]
      ]

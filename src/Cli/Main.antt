-- ===== src/Cli/Main.antt =====
-- src/main.rs: the process, from its flags to its exit code.
use rustern.Common.{
  ℕ, ◌≡◌, refl, ap, ◌∙◌, ◌⊎◌, inl, inr, Bool, true, false, Option, none, some, Text, Result, ok,
  err, ◌>>◌, map_err,
}
use rustern.Pipeline.External.{External}
use rustern.Runtime.Config.{CoreRunConfig, RunOutcome, RunError}
use rustern.Runtime.Run.{exit_code}
use rustern.Cli.{Cli, Host, CliError}
use rustern.Cli.Validate.{validate}
use rustern.Cli.RunConfig.{core_run_config}
use rustern.Cli.Validated.{core_run_config-of_validate}

pub data Signal : Type 0 where
  terminate interrupt : Signal

-- The shutdown reason after the listener, which takes the first signal of a run, if there is one.
unfoldable pub listen_unix_shutdown : Option Signal → ℕ
listen_unix_shutdown none = 0
listen_unix_shutdown (some interrupt) = 1
listen_unix_shutdown (some terminate) = 2

Result-cases {ℓ κ} :
    {A : Type ℓ} {X : Type κ} (r : Result A X) → ((a : A) × (r ≡ ok a)) ⊎ ((e : X) × (r ≡ err e))
Result-cases (ok a) = inl (a, refl)
Result-cases (err e) = inr (e, refl)

-- The code of a run that ended well.
abbrev pub Codes : Bool → Option Signal → ℕ → Type 0
Codes true signal code = code ≡ 2
Codes false none code = code ≡ 0
Codes false (some interrupt) code = code ≡ 130
Codes false (some terminate) code = code ≡ 143

exit_code-Codes :
    (K J : Type 0) (errors : Bool) (signal : Option Signal)
    → Codes errors signal (
        exit_code {K = K} {J = J}
          (ok (record { had_source_errors = errors }))
          (listen_unix_shutdown signal))
unfolding exit_code listen_unix_shutdown
exit_code-Codes K J true s = refl
exit_code-Codes K J false none = refl
exit_code-Codes K J false (some interrupt) = refl
exit_code-Codes K J false (some terminate) = refl

module _ {x : External} (host : Host x) {K J : Type 0} where
  exit_with :
      (CoreRunConfig host.T host.Tz → Result RunOutcome (RunError K J))
      → ℕ
      → Result (CoreRunConfig host.T host.Tz) (Unit {0})
      → ℕ
  exit_with run reason (err e) = 1
  exit_with run reason (ok cfg) = exit_code (run cfg) reason

  -- The code of the process. `registered` is whether the handlers of the signals could be registered, and
  -- `run` what a run of a configuration ends with; the signal is one that comes before its end.
  unfoldable pub main :
      Cli
      → Result (Unit {0}) Text
      → (CoreRunConfig host.T host.Tz → Result RunOutcome (RunError K J))
      → Option Signal
      → ℕ
  unfolding listen_unix_shutdown exit_with
  main cli registered run signal = exit_with run (listen_unix_shutdown signal) (
      map_err (λ e. tt) (validate host cli)
      >> map_err (λ e. tt) registered
      >> map_err (λ e. tt) (core_run_config host cli))

  -- Why a process fails before or in its run: its flags, its handlers, or the run of its configuration.
  abbrev pub Fails :
      Cli
      → Result (Unit {0}) Text
      → (CoreRunConfig host.T host.Tz → Result RunOutcome (RunError K J))
      → Type 0
  Fails cli registered run =
      ((e : CliError) × (validate host cli ≡ err e))
      ⊎ ((e : Text) × (registered ≡ err e))
      ⊎ ((cfg : CoreRunConfig host.T host.Tz) × (e : RunError K J) × (core_run_config host cli
            ≡ ok cfg)
          × (run cfg ≡ err e))

  -- The run that a process does not fail in.
  abbrev pub Succeeds :
      Cli
      → Result (Unit {0}) Text
      → (CoreRunConfig host.T host.Tz → Result RunOutcome (RunError K J))
      → Option Signal
      → ℕ
      → Type 0
  Succeeds cli registered run signal code =
      (cfg : CoreRunConfig host.T host.Tz) × (o : RunOutcome) × (validate host cli ≡ ok tt)
      × (registered ≡ ok tt)
      × (core_run_config host cli ≡ ok cfg)
      × (run cfg ≡ ok o)
      × Codes o.had_source_errors signal code

  -- A process ends with 1 if its flags do not pass the validation, its handlers cannot be registered or
  -- the run of its configuration fails; otherwise the validation, the registration, the configuration and
  -- the run succeed, and it ends with 2 if a source reported an error, and then with 130 after an
  -- interrupt, 143 after a termination and 0 without a signal.
  pub main-code :
      (cli : Cli) (registered : Result (Unit {0}) Text)
      (run : CoreRunConfig host.T host.Tz → Result RunOutcome (RunError K J))
      (signal : Option Signal)
      → ((main cli registered run signal ≡ 1) × Fails cli registered run)
        ⊎ Succeeds cli registered run signal (main cli registered run signal)
  unfolding main exit_with exit_code
  main-code cli registered run signal =
      let code = exit_with run (listen_unix_shutdown signal) in
      let configured = map_err (λ e. tt) (core_run_config host cli) in
      elim (Result-cases (validate host cli)) [
        | inr (e, h) ↦ inl (
          ap (λ v. code (map_err (λ e. tt) v >> map_err (λ e. tt) registered >> configured)) h,
          inl (e, h),
        )
        | inl (u, h) ↦ elim (Result-cases registered) [
          | inr (e, r) ↦ inl (
            ap (λ v. code (map_err (λ e. tt) v >> map_err (λ e. tt) registered >> configured)) h
                ∙ ap (λ v. code (ok tt >> map_err (λ e. tt) v >> configured)) r,
            inr (inl (e, r)),
          )
          | inl (u', r) ↦
              let (cfg, c, _, _, _, _) =
                core_run_config-of_validate host {K = K} cli
                  (record { triggered = false; cancelled = false }) h in
              let steps =
                ap (λ v. code (map_err (λ e. tt) v >> map_err (λ e. tt) registered >> configured)) h
                ∙ ap (λ v. code (ok tt >> map_err (λ e. tt) v >> configured)) r
                ∙ ap (λ v. code (map_err (λ e. tt) v)) c in
              elim (Result-cases (run cfg)) [
                | inr (e, q) ↦ inl (
                  steps ∙ ap (λ v. exit_code v (listen_unix_shutdown signal)) q,
                  inr (inr (cfg, e, c, q)),
                )
                | inl (o, q) ↦ inr (
                  cfg,
                  o,
                  h,
                  r,
                  c,
                  q,
                  rw (steps ∙ ap (λ v. exit_code v (listen_unix_shutdown signal)) q)
                      (exit_code-Codes K J o.had_source_errors signal),
                )
              ]
        ]
      ]

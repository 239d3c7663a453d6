-- ===== src/Cli/Validated.antt =====
-- src/cli/validate.rs, src/run_config/mod.rs and crates/rustern-core/src/runtime/spec.rs: what
-- validated flags are good for.
use rustern.Common.{
  ◌≡◌, refl, ap, arith, List, [], ◌∷◌, Option, none, some, Text, codes, Result, ok, err, ◌>>=◌,
  ◌>>◌, map_err, All,
}
use rustern.Display.{TimestampZone}
use rustern.RegexLimits.{compile_user_regex, compile_user_regex-ok}
use rustern.Pipeline.External.{External}
use rustern.Pipeline.Stages.{QueryMode, ExitWatchState}
use rustern.Pipeline.Build.{
  PipelineSpec, compile_list, compile_query, from_run_config, build_spec, builder_of,
  from_run_config-build_spec,
}
use rustern.Discovery.RunResolution.{
  RunResolutionOutput, implicit_query_from_selector, resolve_pod_query, resolve_namespaces,
  resolve_run_input,
}
use rustern.Runtime.Config.{CoreRunConfig, RunError}
use rustern.Runtime.WatchAdmission.{WatchAdmissionPolicy, try_new, Compiles, try_new-Compiles}
use rustern.Cli.{
  Cli, Host, CliError, message, resolution, check_some, drop_ok, parse_since, parse_since_time,
  parse_zone, parse_level, parse_condition, compile_flag, compile_flags, resolved_pod_query,
  resolved_namespaces, context_namespace, run_resolution_input,
}
use rustern.Cli.Validate.{
  validate_values, validate_conflicts, validate_patterns, validate_scope, validate,
}
use rustern.Cli.RunConfig.{transpose, zone_of, config_of, resolved_run, core_run_config, query_mode}

-- Both parts of a chain of checks have passed.
both :
    {B E : Type 0} (m : Result (Unit {0}) E) (k : Result B E) (b : B)
    → (m >> k) ≡ ok b
    → (m ≡ ok tt) × (k ≡ ok b)
both (ok tt) k b h = (refl, h)
both (err e) k b h = absurd (ground (arith, h))

dropped-ok : {A : Type 0} (r : Result A CliError) → drop_ok r ≡ ok tt → (a : A) × (r ≡ ok a)
unfolding drop_ok
dropped-ok (ok a) h = (a, refl)
dropped-ok (err e) h = absurd (ground (arith, h))

transposed :
    {A B : Type 0} (f : A → Result B CliError) (o : Option A)
    → check_some (λ a. drop_ok (f a)) o ≡ ok tt
    → (b : Option B) × (transpose f o ≡ ok b)
unfolding check_some transpose
transposed f none h = (none, refl)
transposed f (some a) h =
    let (b, e) = dropped-ok (f a) h in (some b, ap (λ r. r >>= λ b. ok (some b)) e)

map_err-ok : {A E F : Type 0} (f : E → F) (r : Result A E) (a : A) → map_err f r ≡ ok a → r ≡ ok a
map_err-ok f (ok a) b h = ap (λ r. elim r [ ok c ↦ ok c | err e ↦ ok a ]) h
map_err-ok f (err e) b h = absurd (ground (arith, h))

module _ {x : External} (host : Host x) where
  zoned :
      (o : Option Text)
      → check_some (λ s. drop_ok (parse_zone host s)) o ≡ ok tt
      → (z : TimestampZone host.Tz) × (zone_of host o ≡ ok z)
  unfolding check_some zone_of
  zoned none h = (TimestampZone.local, refl)
  zoned (some s) h = dropped-ok (parse_zone host s) h

  compiled :
      (label : Text) (ps : List Text)
      → compile_flags host label ps ≡ ok tt
      → (res : List x.Regex) × (compile_list host.regex_new ps ≡ ok res)
  unfolding compile_flags compile_flag compile_list
  compiled label [] h = ([], refl)
  compiled label (p ∷ ps) h =
      let (first, rest) = both (compile_flag host label p) (compile_flags host label ps) tt h in
      let (re, e) =
        dropped-ok (map_err message (compile_user_regex host.regex_new label p)) first in
      let (_, e') =
        compile_user_regex-ok host.regex_new label p re
          (map_err-ok message (compile_user_regex host.regex_new label p) re e) in
      let (res, e'') = compiled label ps rest in (re ∷ res, rw (e', e'') refl)

  compiles : (label p : Text) → compile_flag host label p ≡ ok tt → Compiles host.regex_new p
  unfolding compile_flag
  compiles label p h =
      let (re, e) = dropped-ok (map_err message (compile_user_regex host.regex_new label p)) h in
      let (_, e') =
        compile_user_regex-ok host.regex_new label p re
          (map_err-ok message (compile_user_regex host.regex_new label p) re e) in
      (re, e')

  All-compile :
      (label : Text) (ps : List Text)
      → compile_flags host label ps ≡ ok tt
      → All (Compiles host.regex_new) ps
  unfolding compile_flags
  All-compile label [] h = tt
  All-compile label (p ∷ ps) h =
      let (first, rest) = both (compile_flag host label p) (compile_flags host label ps) tt h in
      (compiles label p first, All-compile label ps rest)

  -- What the checks of the values, of the patterns and of the scope leave.
  values :
      (cli : Cli)
      → validate_values host cli ≡ ok tt
      → (check_some (λ s. drop_ok (parse_since host s)) cli.since ≡ ok tt)
        × (check_some (λ s. drop_ok (parse_since_time host s)) cli.since_time ≡ ok tt)
        × (check_some (λ s. drop_ok (parse_zone host s)) cli.timezone ≡ ok tt)
  unfolding validate_values
  values cli h =
      let (h5, zone) = both _ (check_some (λ s. drop_ok (parse_zone host s)) cli.timezone) tt h in
      let (h4, _) = both _ _ tt h5 in
      let (h3, _) = both _ _ tt h4 in
      let (h2, time) = both _ _ tt h3 in let (_, since) = both _ _ tt h2 in (since, time, zone)

  patterns :
      (cli : Cli)
      → validate_patterns host cli ≡ ok tt
      → (compile_flags host (codes "--exclude-pod") cli.exclude_pod ≡ ok tt)
        × (compile_flags host (codes "--exclude-container") cli.exclude_container ≡ ok tt)
        × (compile_flags host (codes "--include") cli.include ≡ ok tt)
        × (compile_flags host (codes "--exclude") cli.exclude ≡ ok tt)
        × (compile_flag host (codes "--container") cli.container ≡ ok tt)
        × (compile_flags host (codes "--highlight") cli.highlight ≡ ok tt)
        × (compile_flags host (codes "--exit-on") cli.exit_on ≡ ok tt)
        × (check_some (λ expr. drop_ok (map_err message (host.validate_filter expr))) cli.json_query
            ≡ ok tt)
  unfolding validate_patterns
  patterns cli h =
      let (h7, query) = both _ _ tt h in
      let (h6, exit_on) = both _ _ tt h7 in
      let (h5, highlight) = both _ _ tt h6 in
      let (h4, container) = both _ _ tt h5 in
      let (h3, exclude) = both _ _ tt h4 in
      let (h2, include) = both _ _ tt h3 in
      let (exclude_pod, exclude_container) = both _ _ tt h2 in
      (exclude_pod, exclude_container, include, exclude, container, highlight, exit_on, query)

  scope :
      (cli : Cli)
      → validate_scope host cli ≡ ok tt
      → (check_some (λ lv. drop_ok (parse_level host lv)) cli.exit_on_level ≡ ok tt)
        × (check_some (λ c. drop_ok (parse_condition host c)) cli.condition ≡ ok tt)
        × (drop_ok (resolved_pod_query host cli) ≡ ok tt)
        × (drop_ok (resolved_namespaces host cli) ≡ ok tt)
  unfolding validate_scope
  scope cli h =
      let (h4, namespaces) = both _ _ tt h in
      let (h3, query) = both _ _ tt h4 in
      let (h2, condition) = both _ _ tt h3 in
      let (level, _) = both _ _ tt h2 in (level, condition, query, namespaces)

  resolved :
      (cli : Cli)
      → drop_ok (resolved_pod_query host cli) ≡ ok tt
      → drop_ok (resolved_namespaces host cli) ≡ ok tt
      → (out : RunResolutionOutput) × (resolved_run host cli ≡ ok out)
  unfolding resolved_run resolved_pod_query resolved_namespaces resolve_run_input
  resolved cli h k =
      let input = run_resolution_input cli in
      let ns = context_namespace host cli in
      let (q, e) = dropped-ok (map_err resolution (resolve_pod_query input)) h in
      let (nss, e') = dropped-ok (map_err resolution (resolve_namespaces ns input)) k in
      let out : RunResolutionOutput = record {
        resolved_query = q;
        resolved_namespaces = nss;
        all_namespaces = input.all_namespaces;
        implicit_query_from_selector = implicit_query_from_selector input;
      } in
      (
        out,
        rw
            (
              map_err-ok resolution (resolve_pod_query input) q e,
              map_err-ok resolution (resolve_namespaces ns input) nss e',
            )
            refl,
      )

  compiled_query :
      {K : Type 0} (query : Option Text) (mode : QueryMode)
      → check_some (λ expr. drop_ok (map_err message (host.validate_filter expr))) query ≡ ok tt
      → (f : Option (x.Filter × QueryMode)) × (compile_query {K = K} host.validate_filter query mode
          ≡ ok f)
  unfolding compile_query check_some
  compiled_query none mode h = (none, refl)
  compiled_query (some expr) mode h =
      let (f, e) = dropped-ok (map_err message (host.validate_filter expr)) h in
      (
        some (f, mode),
        ap (λ r. map_err RunError.jq r >>= λ f. ok (some (f, mode)))
            (map_err-ok message (host.validate_filter expr) f e),
      )

  -- Flags that pass the validation give a configuration. Of that configuration the patterns for lines and
  -- for the exit and the filter compile, so that the run gets its pipeline; the patterns for pods and
  -- containers compile, so that the run gets its admission policy, for any regex of the query; and each
  -- pattern to highlight compiles.
  pub core_run_config-of_validate :
      {K : Type 0} (cli : Cli) (exit_watch : ExitWatchState)
      → validate host cli ≡ ok tt
      → (cfg : CoreRunConfig host.T host.Tz) × (core_run_config host cli ≡ ok cfg)
        × (spec : PipelineSpec x) × (from_run_config x {K = K} host.regex_new host.validate_filter
              cfg exit_watch
            ≡ ok spec)
        × ((context_name : Text) (pod_regex : Option x.Regex)
            → (policy : WatchAdmissionPolicy x.Regex) × (try_new host.regex_new context_name
                  pod_regex cfg.exclude_pod cfg.namespaces cfg.all_namespaces cfg.container
                  cfg.exclude_container cfg.container_discovery cfg.pod_condition
                ≡ ok policy))
        × All (Compiles host.regex_new) cfg.highlight
  unfolding validate core_run_config config_of
  core_run_config-of_validate {K} cli exit_watch h =
      let (h3, sc) = both _ (validate_scope host cli) tt h in
      let (h2, pt) = both _ (validate_patterns host cli) tt h3 in
      let (vs, _) = both _ (validate_conflicts host cli) tt h2 in
      let (since, since_time, zone) = values cli vs in
      let (ex_pod, ex_container, include, exclude, container, highlight, exit_on, query) =
        patterns cli pt in
      let (level, condition, pod_query, namespaces) = scope cli sc in
      let (s, s') = transposed (parse_since host) cli.since since in
      let (t, t') = transposed (parse_since_time host) cli.since_time since_time in
      let (z, z') = zoned cli.timezone zone in
      let (out, out') = resolved cli pod_query namespaces in
      let (c, c') = transposed (parse_condition host) cli.condition condition in
      let (l, l') = transposed (parse_level host) cli.exit_on_level level in
      let (i, i') = compiled (codes "--include") cli.include include in
      let (e, e') = compiled (codes "--exclude") cli.exclude exclude in
      let (o, o') = compiled (codes "--exit-on") cli.exit_on exit_on in
      let (q, q') = compiled_query {K = K} cli.json_query (query_mode cli.jq_mode) query in
      let cfg = config_of host cli s t z out c l in
      (
        cfg,
        rw (s', t', z', out', c', l') refl,
        build_spec x (builder_of x cfg i e q o) exit_watch,
        from_run_config-build_spec x host.regex_new host.validate_filter cfg exit_watch i e o q i'
            e' q' o',
        λ context_name pod_regex.
            try_new-Compiles host.regex_new context_name pod_regex cfg.exclude_pod cfg.namespaces
              cfg.all_namespaces cfg.container cfg.exclude_container cfg.container_discovery
              cfg.pod_condition (All-compile (codes "--exclude-pod") cli.exclude_pod ex_pod)
              (compiles (codes "--container") cli.container container)
              (All-compile (codes "--exclude-container") cli.exclude_container ex_container),
        All-compile (codes "--highlight") cli.highlight highlight,
      )

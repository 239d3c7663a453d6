-- ===== src/Cli/Validate.antt =====
-- src/cli/validate.rs: the checks of the flags, in their order.
use rustern.Common.{
  Bool, false, not, ◌&&◌, Option, none, some, is_some, is_negative, Text, codes, nat_beq, ℤ, ℕ,
  Result, ◌>>◌, fail_if, map_err,
}
use rustern.Pipeline.External.{External}
use rustern.Cli.{
  Cli, Host, CliError, message, follow, check_some, drop_ok, is_true, is_zero, parse_since,
  parse_since_time, parse_zone, parse_level, parse_condition, compile_flag, compile_flags,
  resolved_pod_query, resolved_namespaces,
}

unfoldable pub is_below_zero : Option ℤ → Bool
is_below_zero none = false
is_below_zero (some n) = is_negative n

unfoldable pub is_no_request : Option ℕ → Bool
is_no_request none = false
is_no_request (some n) = nat_beq n 0

unfoldable pub fail : Bool → Text → Result (Unit {0}) CliError
fail test text = fail_if test (message text)

module _ {x : External} (host : Host x) where
  unfoldable pub validate_values : Cli → Result (Unit {0}) CliError
  unfolding is_below_zero is_no_request fail
  validate_values cli =
      fail (is_below_zero cli.tail) (codes "--tail must be >= 0")
      >> check_some (λ s. drop_ok (parse_since host s)) cli.since
      >> check_some (λ s. drop_ok (parse_since_time host s)) cli.since_time
      >> fail (nat_beq cli.buffer_size 0) (codes "--buffer-size must be > 0")
      >> fail (is_no_request cli.max_log_requests) (codes "--max-log-requests must be > 0 when set")
      >> check_some (λ s. drop_ok (parse_zone host s)) cli.timezone

  unfoldable pub validate_conflicts : Cli → Result (Unit {0}) CliError
  unfolding fail is_true
  validate_conflicts cli =
      fail (cli.no_init_containers && is_true cli.init_containers)
        (codes "`--no-init-containers` conflicts with an explicit `--init-containers=true`")
      >> fail (cli.no_ephemeral_containers && is_true cli.ephemeral_containers)
          (codes "`--no-ephemeral-containers` conflicts with `--ephemeral-containers=true`")
      >> fail (cli.no_pod_colors && is_true cli.pod_colors)
          (codes "`--no-pod-colors` conflicts with an explicit `--pod-colors=true`")
      >> fail (cli.no_container_colors && is_true cli.container_colors)
          (codes "`--no-container-colors` conflicts with an explicit `--container-colors=true`")

  unfoldable pub validate_patterns : Cli → Result (Unit {0}) CliError
  validate_patterns cli =
      compile_flags host (codes "--exclude-pod") cli.exclude_pod
      >> compile_flags host (codes "--exclude-container") cli.exclude_container
      >> compile_flags host (codes "--include") cli.include
      >> compile_flags host (codes "--exclude") cli.exclude
      >> compile_flag host (codes "--container") cli.container
      >> compile_flags host (codes "--highlight") cli.highlight
      >> compile_flags host (codes "--exit-on") cli.exit_on
      >> check_some (λ expr. drop_ok (map_err message (host.validate_filter expr))) cli.json_query

  unfoldable pub validate_scope : Cli → Result (Unit {0}) CliError
  unfolding fail is_zero
  validate_scope cli =
      check_some (λ lv. drop_ok (parse_level host lv)) cli.exit_on_level
      >> fail (is_some cli.condition && follow cli && not (is_zero cli.tail))
          (codes "--condition only works with --no-follow or --tail=0")
      >> check_some (λ c. drop_ok (parse_condition host c)) cli.condition
      >> drop_ok (resolved_pod_query host cli)
      >> drop_ok (resolved_namespaces host cli)

  unfoldable pub validate : Cli → Result (Unit {0}) CliError
  validate cli =
      validate_values cli >> validate_conflicts cli >> validate_patterns cli >> validate_scope cli

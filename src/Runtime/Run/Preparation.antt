-- ===== src/Runtime/Run/Preparation.antt =====
-- crates/rustern-core/src/runtime/run.rs: which pods are listed before the tasks start.
use rustern.Common.{
  ◌≡◌, refl, sym, ap, arith, Bool, true, false, List, Option, none, some, Text, Result, ok, err,
  ◌>>=◌, map_err,
}
use rustern.Kube.{Pod}
use rustern.Pipeline.External.{External}
use rustern.Pipeline.Stages.{ExitWatchState}
use rustern.Pipeline.Build.{from_run_config}
use rustern.Discovery.PodList.{PodWatchPlan}
use rustern.Discovery.WorkloadSelector.{Client}
use rustern.Render.Printing.{Printer}
use rustern.Runtime.Config.{CoreRunConfig, kube}
use rustern.Runtime.ListPods.{Page, list_pods_paginated}
use rustern.Runtime.Run.{
  ApiScope, Prepared, compile, list_unless_following, prepare, api_scope, watch_plan, admission_of,
  formatter_of,
}

bound-ok :
    {A B E : Type 0} (r : Result A E) (f : A → Result B E) (b : B)
    → (r >>= f) ≡ ok b
    → (a : A) × (r ≡ ok a) × (f a ≡ ok b)
bound-ok (ok a) f b h = (a, refl, h)
bound-ok (err e) f b h = absurd (ground (arith, h))

map_err-ok : {A E F : Type 0} (f : E → F) (r : Result A E) (a : A) → map_err f r ≡ ok a → r ≡ ok a
map_err-ok f (ok a) b h = ap (λ r. elim r [ ok c ↦ ok c | err e ↦ ok a ]) h
map_err-ok f (err e) b h = absurd (ground (arith, h))

module _ {x : External} (p : Printer x) {E J : Type 0} (show_regex : p.RegexError → Text)
    (compile_user : Text → Result (Unit {0}) Text) (validate_filter : Text → Result x.Filter J)
    (client : Client E)
    (list : ApiScope → Option Text → Option Text → Option Text → Result (Page Pod) E) where
  -- The pods that are there, if the run does not follow, are all the pages of the list in the scope and
  -- with the selectors of the plan.
  abbrev pub IsListed : Bool → ApiScope → PodWatchPlan x.Regex → Option (List Pod) → Type 0
  IsListed true scope plan pods = pods ≡ none
  IsListed false scope plan pods =
      (ps : List Pod) × (pods ≡ some ps)
      × (list_pods_paginated (list scope plan.label_selector plan.field_selector) none ≡ ok ps)

  listed :
      (following : Bool) (scope : ApiScope) (plan : PodWatchPlan x.Regex) (pods : Option (List Pod))
      → list_unless_following p show_regex compile_user validate_filter client list following scope
          plan
        ≡ ok pods
      → IsListed following scope plan pods
  unfolding list_unless_following
  listed true scope plan pods h = sym (ap (λ r. elim r [ ok a ↦ a | err e ↦ pods ]) h)
  listed false scope plan pods h =
      let (ps, e, e') =
        bound-ok
          (map_err kube
            (list_pods_paginated (list scope plan.label_selector plan.field_selector) none))
          (λ pods. ok (some pods)) pods h in
      (ps, sym (ap (λ r. elim r [ ok a ↦ a | err e ↦ pods ]) e'), map_err-ok kube _ ps e)

  -- A run that does not follow has its pods before its tasks start, and one that follows lists none.
  prepare-IsListed :
      {T : Type 0} (context_name : Text) (cfg : CoreRunConfig T p.Tz) (exit_watch : ExitWatchState)
      (pr : Prepared p)
      → prepare p show_regex compile_user validate_filter client list context_name cfg exit_watch
        ≡ ok pr
      → IsListed cfg.pod_log.follow pr.scope pr.plan pr.no_follow_pods
  unfolding prepare
  prepare-IsListed context_name cfg exit_watch pr h =
      let (plan, _, h1) =
        bound-ok (watch_plan p show_regex compile_user validate_filter client list cfg) _ pr h in
      let (pipeline, _, h2) =
        bound-ok
          (from_run_config x (compile p show_regex compile_user validate_filter client list)
            validate_filter cfg exit_watch)
          _ pr h1 in
      let (admission, _, h3) =
        bound-ok
          (admission_of p show_regex compile_user validate_filter client list context_name cfg plan)
          _ pr h2 in
      let (formatter, _, h4) =
        bound-ok (formatter_of p show_regex compile_user validate_filter client list cfg) _ pr h3 in
      let scope = api_scope cfg.all_namespaces cfg.namespaces in
      let (pods, l, h5) =
        bound-ok
          (list_unless_following p show_regex compile_user validate_filter client list
            cfg.pod_log.follow scope plan)
          _ pr h4 in
      let same = ap (λ r. elim r [ ok a ↦ a | err e ↦ pr ]) h5 in
      rw (← same) (listed cfg.pod_log.follow scope plan pods l)

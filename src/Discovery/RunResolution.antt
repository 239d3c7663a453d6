-- ===== src/Discovery/RunResolution.antt =====
-- crates/rustern-core/src/discovery/run_resolution.rs: the query and the namespaces of a run.
use rustern.Common.{
  ◌≡◌, refl, ◌∙◌, sym, ap, Bool, true, false, not, ◌&&◌, ◌||◌, List, [], ◌∷◌, ◌++◌, Option, none,
  some, arith, Text, codes, text_beq, text_eq, ◌==◌, is_empty, is_some, beq_self, text_beq_iff,
  split, trim, if◌then◌else◌, any, Result, ok, err, ◌>>=◌, map_err, Bool-cases, inl, inr,
}
use rustern.Common.Sets.{contains, contains-append, IsDistinct}

pub record RunResolutionInput : Type 0 where
  pub query : Option Text
  pub selector : Option Text
  pub field_selector : Option Text
  pub node : Option Text
  pub all_namespaces : Bool
  pub namespace_flags : List Text

pub record RunResolutionOutput : Type 0 where
  pub resolved_query : Text
  pub resolved_namespaces : List Text
  pub all_namespaces : Bool
  pub implicit_query_from_selector : Bool

pub data RunResolutionError (X : Type 0) : Type 0 where
  query_required invalid_namespace_flags : RunResolutionError X
  context : X → RunResolutionError X

unfoldable pub implicit_query_from_selector : RunResolutionInput → Bool
implicit_query_from_selector input =
    not (is_some input.query) && (is_some input.selector || is_some input.field_selector)

module _ {X : Type 0} where
  resolve_query : Option Text → RunResolutionInput → Result Text (RunResolutionError X)
  resolve_query (some q) input =
      if (q == codes ".") && not (is_some input.selector) && is_some input.field_selector
      then ok (codes ".*")
      else ok q
  resolve_query none input =
      if is_some input.selector || is_some input.field_selector
      then ok (codes ".*")
      else err query_required

  unfoldable pub resolve_pod_query : RunResolutionInput → Result Text (RunResolutionError X)
  unfolding resolve_query
  resolve_pod_query input = resolve_query input.query input

-- One turn of the inner loop: `out` are the namespaces found so far.
push_segment : Text → List Text → List Text
push_segment t out =
    if is_empty t then out else if any (λ n. n == t) out then out else out ++ (t ∷ [])

push_segments : List Text → List Text → List Text
unfolding push_segment
push_segments [] out = out
push_segments (seg ∷ segs) out = push_segments segs (push_segment (trim seg) out)

push_parts : List Text → List Text → List Text
unfolding push_segments
push_parts [] out = out
push_parts (part ∷ parts) out = push_parts parts (push_segments (split b',' part) out)

unfoldable pub deduped_explicit_namespaces : List Text → List Text
unfolding push_parts
deduped_explicit_namespaces namespace_flags = push_parts namespace_flags []

-- `default_ns` is the namespace of the active context, or the error of reading it.
module _ {X : Type 0} (default_ns : Result Text X) where
  unfoldable pub resolve_namespaces : RunResolutionInput → Result (List Text) (RunResolutionError X)
  resolve_namespaces input =
      let explicit = deduped_explicit_namespaces input.namespace_flags in
      if input.all_namespaces
      then ok []
      else if not (is_empty explicit)
      then ok explicit
      else if not (is_empty input.namespace_flags)
      then err invalid_namespace_flags
      else map_err context default_ns >>= λ ns. ok (ns ∷ [])

  unfoldable pub resolve_run_input :
      RunResolutionInput → Result RunResolutionOutput (RunResolutionError X)
  unfolding resolve_pod_query resolve_namespaces implicit_query_from_selector
  resolve_run_input input = resolve_pod_query input >>= λ query.
      resolve_namespaces input >>= λ namespaces. ok (record {
        resolved_query = query;
        resolved_namespaces = namespaces;
        all_namespaces = input.all_namespaces;
        implicit_query_from_selector = implicit_query_from_selector input;
      })

-- Whether a namespace is a trimmed, nonempty segment of a flag.
unfoldable pub is_segment : Text → Text → Bool
is_segment t part = any (λ seg. (t == trim seg) && not (is_empty t)) (split b',' part)

any-contains : (t : Text) (out : List Text) → any (λ n. n == t) out ≡ contains t out
unfolding any contains
any-contains t [] = refl
any-contains t (n ∷ out) =
    ground (arith, any-contains t out, text_eq.beq_iff n t, text_eq.beq_iff t n)

append-IsDistinct :
    (t : Text) (out : List Text)
    → contains t out ≡ false
    → IsDistinct out
    → IsDistinct (out ++ (t ∷ []))
unfolding contains
append-IsDistinct t [] h d = (refl, tt)
append-IsDistinct t (n ∷ out) h d = ground (
  arith,
  append-IsDistinct t out,
  contains-append n out (t ∷ []),
  text_eq.beq_iff n t,
  text_eq.beq_iff t n,
)

contains-push_segment :
    (n t : Text) (out : List Text)
    → contains n (push_segment t out) ≡ (contains n out || ((n == t) && not (is_empty n)))
unfolding push_segment contains
contains-push_segment n t out = elim (Bool-cases (text_beq n t)) [
  | inl same ↦ rw ((text_beq_iff n t).0 same) (present t)
  | inr other ↦ ground (arith, contains-append n out (t ∷ []))
]
  where
    present :
        (s : Text)
        → contains s
            (if is_empty s then out else if any (λ m. m == s) out then out else out ++ (s ∷ []))
          ≡ (contains s out || ((s == s) && not (is_empty s)))
    present s = ground (arith, contains-append s out (s ∷ []), any-contains s out, beq_self s)

push_segment-IsDistinct :
    (t : Text) (out : List Text) → IsDistinct out → IsDistinct (push_segment t out)
unfolding push_segment
push_segment-IsDistinct t out d = ground (arith, any-contains t out, append-IsDistinct t out)

contains-push_segments :
    (n : Text) (segs out : List Text)
    → contains n (push_segments segs out)
      ≡ (contains n out || any (λ seg. (n == trim seg) && not (is_empty n)) segs)
unfolding push_segments any
contains-push_segments n [] out = ground arith
contains-push_segments n (seg ∷ segs) out = ground (
  arith,
  contains-push_segments n segs (push_segment (trim seg) out),
  contains-push_segment n (trim seg) out,
)

push_segments-IsDistinct :
    (segs out : List Text) → IsDistinct out → IsDistinct (push_segments segs out)
unfolding push_segments
push_segments-IsDistinct [] out d = d
push_segments-IsDistinct (seg ∷ segs) out d =
    push_segments-IsDistinct segs (push_segment (trim seg) out)
      (push_segment-IsDistinct (trim seg) out d)

contains-push_parts :
    (n : Text) (parts out : List Text)
    → contains n (push_parts parts out) ≡ (contains n out || any (is_segment n) parts)
unfolding push_parts any is_segment
contains-push_parts n [] out = ground arith
contains-push_parts n (part ∷ parts) out = ground (
  arith,
  contains-push_parts n parts (push_segments (split b',' part) out),
  contains-push_segments n (split b',' part) out,
)

push_parts-IsDistinct : (parts out : List Text) → IsDistinct out → IsDistinct (push_parts parts out)
unfolding push_parts
push_parts-IsDistinct [] out d = d
push_parts-IsDistinct (part ∷ parts) out d =
    push_parts-IsDistinct parts (push_segments (split b',' part) out)
      (push_segments-IsDistinct (split b',' part) out d)

-- The namespaces of the flags are the trimmed segments between commas that are not empty, each once.
contains-deduped_explicit_namespaces :
    (namespace_flags : List Text)
    → IsDistinct (deduped_explicit_namespaces namespace_flags)
      × ((n : Text)
          → contains n (deduped_explicit_namespaces namespace_flags)
            ≡ any (is_segment n) namespace_flags)
unfolding deduped_explicit_namespaces contains
contains-deduped_explicit_namespaces flags =
    (push_parts-IsDistinct flags [] tt, λ n. contains-push_parts n flags [])

module _ {X : Type 0} (default_ns : Result Text X) where
  is_empty_of : Result (List Text) (RunResolutionError X) → Bool
  is_empty_of (ok ns) = is_empty ns
  is_empty_of (err e) = false

  default-nonempty :
      (d : Result Text X) (ns : List Text)
      → (map_err RunResolutionError.context d >>= λ n. ok (n ∷ [])) ≡ ok ns
      → is_empty ns ≡ false
  unfolding is_empty
  default-nonempty (ok n) ns h = ground arith
  default-nonempty (err e) ns h = absurd (ground arith)

  scope-cases :
      (all ex_empty flags_empty : Bool) (explicit ns : List Text)
      → is_empty explicit ≡ ex_empty
      → (if all
          then ok []
          else if not ex_empty
          then ok explicit
          else if not flags_empty
          then err invalid_namespace_flags
          else map_err RunResolutionError.context default_ns >>= λ n. ok (n ∷ []))
        ≡ ok ns
      → is_empty ns ≡ all
  unfolding is_empty_of
  scope-cases true e f explicit ns h g = sym (ap is_empty_of g) ∙ unfold is_empty in refl
  scope-cases false false f explicit ns h g = sym (ap is_empty_of g) ∙ h
  scope-cases false true false explicit ns h g = absurd (ground arith)
  scope-cases false true true explicit ns h g = default-nonempty default_ns ns g

  -- If the namespaces can be resolved, there are none of them exactly if the run is on all namespaces.
  pub resolve_namespaces-is_empty :
      (input : RunResolutionInput) (ns : List Text)
      → resolve_namespaces default_ns input ≡ ok ns
      → is_empty ns ≡ input.all_namespaces
  unfolding resolve_namespaces
  resolve_namespaces-is_empty input ns h =
      scope-cases input.all_namespaces
        (is_empty (deduped_explicit_namespaces input.namespace_flags))
        (is_empty input.namespace_flags) (deduped_explicit_namespaces input.namespace_flags) ns refl
        h

-- ===== src/Render/Json.antt =====
-- crates/rustern-core/src/render/json_renderer.rs and ext_json_renderer.rs: a row as a JSON object.
use rustern.Common.{
  ℕ, Bool, List, [], ◌∷◌, ◌++◌, push, Option, none, some, Text, codes, is_empty, nat_beq, reverse,
  if◌then◌else◌,
}
use mathlib.Core.Option
use rustern.Source.{as_str}
use rustern.Pipeline.External.{External}
use rustern.Pipeline.Stages.{serde, jaq, Parsed}
use rustern.Render.{Event, LineFormatter}
use rustern.Render.Printing.{Printer}

module _ {x : External} (p : Printer x) where
  -- json_renderer.rs

  pub record JsonLine : Type 0 where
    pub pod : Text
    pub container : Text
    pub namespace : Text
    pub timestamp : ℕ
    pub message : Text
    pub level : Option Text

  unfoldable pub string_field : Text → Text → Text × x.Value
  string_field name s = (name, p.string_value s)

  -- The derived `Serialize`: the fields in order, without those that are skipped.
  unfoldable pub serialize_json_line : JsonLine → Text → List (Text × x.Value)
  unfolding string_field
  serialize_json_line row timestamp =
      string_field (codes "pod") row.pod
      ∷ string_field (codes "container") row.container
      ∷ string_field (codes "namespace") row.namespace
      ∷ string_field (codes "timestamp") timestamp
      ∷ string_field (codes "message") row.message
      ∷ push (Option.map (string_field (codes "level")) row.level) []

  unfoldable pub serialize_timestamp : ℕ → Option Text
  serialize_timestamp t = p.naive_format (codes "%Y-%m-%dT%H:%M:%S%.f+00:00") t

  unfoldable pub json_line : Event p → JsonLine
  json_line event = record {
    pod = event.source.pod;
    container = event.source.container;
    namespace = event.source.namespace;
    timestamp = event.timestamp;
    message = event.message;
    level = Option.map as_str event.level;
  }

  write_line : Text → Option Text → Option Text
  write_line buf s = Option.map (λ t. buf ++ (t ++ codes "\n")) s

  unfoldable pub format_json : LineFormatter p
  unfolding serialize_timestamp serialize_json_line json_line write_line
  format_json event buf =
      let row = json_line event in
      write_line buf (
        Option.bind (serialize_timestamp row.timestamp)
          λ timestamp. p.to_string (serialize_json_line row timestamp))

  -- ext_json_renderer.rs

  pub record ExtJsonLineFormatter : Type 0 where
    pub all_namespaces : Bool
    pub pretty : Bool

  -- `ParsedJson::to_serde_value`
  unfoldable pub to_serde_value : Parsed x → x.Value
  to_serde_value (serde v) = v
  to_serde_value (jaq v) = Option.get_or (x.parse_value (x.show_val v)) p.null

  drop_newlines : Text → Text
  drop_newlines [] = []
  drop_newlines (c ∷ s) = if nat_beq c 10 then drop_newlines s else c ∷ s

  trim_end_newlines : Text → Text
  unfolding drop_newlines
  trim_end_newlines s = reverse (drop_newlines (reverse s))

  unfoldable pub encode_message : Text → Option (Parsed x) → x.Value
  unfolding to_serde_value trim_end_newlines
  encode_message message (some parsed) = to_serde_value parsed
  encode_message message none =
      let trimmed = trim_end_newlines message in
      Option.get_or (x.parse_value trimmed) (p.string_value trimmed)

  pub record ExtJsonLine : Type 0 where
    pub container : Text
    pub labels : Option (List (Text × Text))
    pub level : Option Text
    pub message : x.Value
    pub namespace : Option Text
    pub node : Option Text
    pub pod : Text
    pub timestamp : Text

  -- The derived `Serialize`.
  unfoldable pub serialize_ext_json_line : ExtJsonLine → List (Text × x.Value)
  unfolding string_field
  serialize_ext_json_line row =
      string_field (codes "container") row.container
      ∷ push (Option.map (λ m. (codes "labels", p.map_value m)) row.labels) (
          push (Option.map (string_field (codes "level")) row.level) (
            (codes "message", row.message)
            ∷ push (Option.map (string_field (codes "namespace")) row.namespace) (
                push (Option.map (string_field (codes "node")) row.node) (
                  string_field (codes "pod") row.pod
                  ∷ string_field (codes "timestamp") row.timestamp
                  ∷ []))))

  unfoldable pub build_object : Event p → Bool → ExtJsonLine
  unfolding encode_message
  build_object event all_namespaces = record {
    container = event.source.container;
    labels = if is_empty event.source.labels then none else some event.source.labels;
    level = Option.map as_str event.level;
    message = encode_message event.message event.structured;
    namespace = if all_namespaces then some event.source.namespace else none;
    node = event.source.node;
    pod = event.source.pod;
    timestamp = p.to_rfc3339 event.timestamp;
  }

  unfoldable pub format_ext_json : ExtJsonLineFormatter → LineFormatter p
  unfolding serialize_ext_json_line build_object write_line
  format_ext_json f event buf =
      let obj = serialize_ext_json_line (build_object event f.all_namespaces) in
      write_line buf (if f.pretty then p.to_string_pretty obj else p.to_string obj)

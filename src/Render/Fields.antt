-- ===== src/Render/Fields.antt =====
-- crates/rustern-core/src/render/ext_json_renderer.rs: the order of the fields of an object.
use rustern.Common.{Bool, not, List, map, arith, Text, text_le}
use rustern.Common.Sorting.{IsSorted}
use rustern.Pipeline.External.{External}
use rustern.Render.{Event}
use rustern.Render.Json.{ExtJsonLine, build_object, serialize_ext_json_line, string_field}
use rustern.Render.Printing.{Printer}

abbrev text_lt : Text → Text → Bool
text_lt a b = not (text_le b a)

module _ {x : External} (p : Printer x) where
  abbrev keys : List (Text × x.Value) → List Text
  keys fields = map (λ (f : Text × x.Value). f.0) fields

  -- The keys of an object stand in the order of their texts, none of them twice, whatever fields the
  -- row has and with the namespace or without.
  build_object-IsSorted :
      (event : Event p) (all_namespaces : Bool)
      → IsSorted text_lt (keys (serialize_ext_json_line p (build_object p event all_namespaces)))
  unfolding serialize_ext_json_line string_field build_object text_le
  build_object-IsSorted event all_namespaces = sorted_keys (build_object p event all_namespaces)
    where
      sorted_keys : (row : ExtJsonLine p) → IsSorted text_lt (keys (serialize_ext_json_line p row))
      sorted_keys row = ground arith

-- ===== src/Codegen/Discover/Tests.antt =====
-- The theorems on discovery, for a server with one motor.
use Prim.Native.Nat.{Ordering}
use mathlib.Core.List.{Nodup}
use effect_opcua.Prelude.{
  String, none, some, List, [], ◌∷◌, map, true, ◌≡◌, ◌↔◌, refl, ◌==◌, if◌then◌else◌,
}
use effect_opcua.Prelude.Maps.{get, set}
use effect_opcua.Prelude.Groups.{group_from, push}
use effect_opcua.Client.Effect.{Exit, succeeded, failed}
use effect_opcua.Client.Metadata.Nodes.{NodeMetadata, NodeResult, success}
use effect_opcua.Codegen.Discover.{
  any_segments, text_segment, match_path_pattern, pattern_rule, omit, BrowseReference,
  named_targets, duplicate_browse_name,
}
use effect_opcua.Codegen.Discover.Patterns.{IsMadeOf, match_path_pattern_iff}
use effect_opcua.Codegen.Discover.Duplicates.{duplicate_browse_name-Nodup}
use effect_opcua.Codegen.Discover.Walk.{
  references_result, DiscoverError, Session, Config, Walk, RootNode, item_of_root, start_walk,
  visit_item,
}

match_path_pattern_iff_example :
    (match_path_pattern
        (any_segments ∷ text_segment "Status" ∷ [])
        ("Plant" ∷ "Motor" ∷ "Status" ∷ [])
      ≡ true)
    ↔ IsMadeOf (any_segments ∷ text_segment "Status" ∷ []) ("Plant" ∷ "Motor" ∷ "Status" ∷ [])
match_path_pattern_iff_example =
    match_path_pattern_iff (any_segments ∷ text_segment "Status" ∷ [])
      ("Plant" ∷ "Motor" ∷ "Status" ∷ [])

abbrev child : String → String → BrowseReference
child node_id name = record {
  node_id = node_id;
  reference_type_id = some "i=35";
  is_forward = some true;
  browse_name = some name;
  node_class = some "Object";
}

abbrev children : List BrowseReference
children = child "ns=1;s=m" "Motor" ∷ child "ns=1;s=p" "Pump" ∷ []

duplicate_browse_name-Nodup_example :
    Nodup (map (λ (p : String × String). p.0) (named_targets children))
unfolding duplicate_browse_name group_from push set get
duplicate_browse_name-Nodup_example = duplicate_browse_name-Nodup children refl

abbrev metadata_at : String → NodeMetadata
metadata_at node_id = record {
  node_id = node_id;
  node_class = "Object";
  browse_name = "Motor";
  browse_name_namespace_index = 1;
  display_name = none;
  description = none;
  data_type = none;
  value_rank = none;
  array_dimensions = none;
  access_level = none;
  user_access_level = none;
  namespace_index = 1;
  namespace_uri = none;
}

abbrev results : List String → List NodeResult
results [] = []
results (node_id ∷ node_ids) = success node_id (metadata_at node_id) ∷ results node_ids

abbrev test_session : Session String
test_session = record {
  browse_children = λ node_id.
      if node_id == "ns=1;s=plant"
      then succeeded (references_result (child "ns=1;s=m" "Motor" ∷ []))
      else succeeded (references_result []);
  read_many_node_metadata = λ node_ids. succeeded (results node_ids);
}

abbrev test_config : Config
test_config = record {
  exclude = pattern_rule (any_segments ∷ text_segment "Status" ∷ []) omit ∷ [];
  fail_on_browse_failure = true;
  locale_compare = λ a b. Ordering.eq;
  strip_namespace_zero = λ s. s;
}

abbrev plant : RootNode
plant = record {
  node_id = "ns=1;s=plant";
  root_index = 0;
  path = "Plant" ∷ [];
  metadata = metadata_at "ns=1;s=plant";
}

abbrev begin : Walk
unfolding start_walk
begin = start_walk test_config (plant ∷ [])

abbrev walk_of : Exit (DiscoverError String) Walk → Walk
unfolding start_walk
walk_of (succeeded w) = w
walk_of (failed e) = begin

abbrev after_plant : Walk
unfolding visit_item
after_plant =
    walk_of (visit_item test_session test_config (item_of_root plant) (record begin { queue = [] }))

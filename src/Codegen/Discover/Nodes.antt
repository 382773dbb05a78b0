-- ===== src/Codegen/Discover/Nodes.antt =====
-- packages/codegen/src/discover.ts: addOrUpdateNode, which keeps every node once, with the paths that
-- lead to it and the best of them.
use Prim.Native.Nat.{Ordering, compare}
use effect_opcua.Prelude.{
  ℕ, ◌+◌, String, Option, none, some, List, [], ◌∷◌, ◌++◌, map, length, Bool, true, false, ◌==◌,
  if◌then◌else◌,
}
use effect_opcua.Prelude.Maps.{Map, get, set}
use effect_opcua.Prelude.Sort.{sort}
use effect_opcua.Prelude.Text.{join}
use effect_opcua.Client.Metadata.Nodes.{NodeMetadata}
use effect_opcua.Client.Metadata.Nodes
use effect_opcua.Codegen.Types.{
  DiscoveredNode, NodeClass, object, variable, method, data_type, object_type, variable_type,
  reference_type, AccessBits,
}
use effect_opcua.Codegen.Names.{display_path}
use effect_opcua.Codegen.Names.Surface.{nul_text}

-- NodeDraft
pub record NodeDraft : Type 0 where
  pub node : DiscoveredNode
  pub all_paths : List (List String)
  pub parent_node_id : Option String
  pub root_segment_count : ℕ

-- The argument of addOrUpdateNode
pub record NodeInput : Type 0 where
  pub metadata : NodeMetadata
  pub path : List String
  pub parent_node_id : Option String
  pub root_index : ℕ
  pub root_segment_count : ℕ

abbrev pub values_of : {V : Type 0} → Map V → List V
values_of m = map (λ (p : String × _). p.1) m

-- The paths in a Map under their joined segments.
unfoldable pub keyed_paths : List (List String) → Map (List String) → Map (List String)
keyed_paths [] m = m
keyed_paths (path ∷ paths) m = keyed_paths paths (set (join nul_text path) path m)

unfoldable pub normalize_node_class : String → Option NodeClass
normalize_node_class name =
    if name == "Object"
    then some object
    else if name == "Variable"
    then some variable
    else if name == "Method"
    then some method
    else if name == "DataType"
    then some data_type
    else if name == "ObjectType"
    then some object_type
    else if name == "VariableType"
    then some variable_type
    else if name == "ReferenceType"
    then some reference_type
    else none

bits_of : Option Nodes.AccessBits → Option AccessBits
bits_of none = none
bits_of (some bits) = some (record { readable = bits.readable; writable = bits.writable })

module _ (locale_compare : String → String → Ordering) where
  abbrev pub path_le : List String → List String → Bool
  path_le left right = elim (locale_compare (display_path left) (display_path right)) [
    | Ordering.gt ↦ false
    | _ ↦ true
  ]

  unfoldable pub unique_paths : List (List String) → List (List String)
  unfolding keyed_paths sort
  unique_paths paths = sort path_le (values_of (keyed_paths paths []))

  abbrev then_lt : Ordering → Bool → Bool
  then_lt Ordering.lt rest = true
  then_lt Ordering.eq rest = rest
  then_lt Ordering.gt rest = false

  abbrev compare_index : Option ℕ → ℕ → Ordering
  compare_index none index = Ordering.lt
  compare_index (some existing) index = compare index existing

  abbrev is_lt : Ordering → Bool
  is_lt Ordering.lt = true
  is_lt _ = false

  -- comparePathRank of the input and the existing node is negative. The relative lengths are
  -- differences, which are compared across.
  unfoldable pub better_path : NodeInput → NodeDraft → Bool
  better_path input existing = then_lt (compare_index existing.node.root_index input.root_index) (
      then_lt
        (compare (length input.path + existing.root_segment_count)
          (length existing.node.path + input.root_segment_count))
        (then_lt (locale_compare (display_path input.path) (display_path existing.node.path))
          (is_lt (locale_compare input.metadata.node_id existing.node.node_id))))

  unfoldable pub update_draft : NodeInput → NodeDraft → NodeDraft
  unfolding unique_paths better_path
  update_draft input existing =
      let all = unique_paths (existing.all_paths ++ input.path ∷ []) in
      if better_path input existing
      then record {
        node = record existing.node { path = input.path; root_index = some input.root_index };
        all_paths = all;
        parent_node_id = input.parent_node_id;
        root_segment_count = input.root_segment_count;
      }
      else record existing { all_paths = all }

  unfoldable pub new_draft : NodeInput → NodeClass → NodeDraft
  unfolding bits_of
  new_draft input node_class = record {
    node = record {
      node_id = input.metadata.node_id;
      path = input.path;
      node_class = node_class;
      data_type_node_id = input.metadata.data_type;
      value_rank = input.metadata.value_rank;
      access_level = bits_of input.metadata.access_level;
      user_access_level = bits_of input.metadata.user_access_level;
      root_index = some input.root_index;
    };
    all_paths = input.path ∷ [];
    parent_node_id = input.parent_node_id;
    root_segment_count = input.root_segment_count;
  }

  unfoldable pub add_new : NodeInput → Option NodeClass → Map NodeDraft → Map NodeDraft
  unfolding new_draft
  add_new input none nodes = nodes
  add_new input (some node_class) nodes =
      set input.metadata.node_id (new_draft input node_class) nodes

  unfoldable pub add_to : NodeInput → Option NodeDraft → Map NodeDraft → Map NodeDraft
  unfolding update_draft add_new normalize_node_class
  add_to input (some existing) nodes =
      set input.metadata.node_id (update_draft input existing) nodes
  add_to input none nodes = add_new input (normalize_node_class input.metadata.node_class) nodes

  unfoldable pub add_or_update_node : Map NodeDraft → NodeInput → Map NodeDraft
  unfolding add_to
  add_or_update_node nodes input = add_to input (get input.metadata.node_id nodes) nodes

-- ===== src/Codegen/Discover/Walk/Children.antt =====
-- packages/codegen/src/discover.ts: the loop of `discover` over the children of a node.
use effect_opcua.Prelude.{
  String, Option, none, some, List, [], ◌∷◌, ◌++◌, Bool, true, false, ◌&&◌, ◌==◌, if◌then◌else◌,
}
use effect_opcua.Prelude.Sets.{has}
use effect_opcua.Prelude.Maps.{Map, get}
use effect_opcua.Prelude.Text.{◌<>◌}
use effect_opcua.Client.Metadata.Nodes.{NodeMetadata}
use effect_opcua.Codegen.Issues.{Issue, IssueCode, issue, said, branch_pruned, node_omitted}
use effect_opcua.Codegen.Names.{display_path}
use effect_opcua.Codegen.Discover.{
  ExcludeRule, ExcludeMode, prune, omit, mode_of, matching_exclude, BrowseReference, usable_name,
  usable_id,
}
use effect_opcua.Codegen.Discover.Nodes.{NodeInput, add_or_update_node}
use effect_opcua.Codegen.Discover.Walk.State.{Config, TraversalItem, Walk}

abbrev pub metadata_property_names : List String
metadata_property_names =
    "InputArguments" ∷ "OutputArguments" ∷ "EnumStrings" ∷ "EnumValues" ∷ "DataTypeVersion"
    ∷ "DictionaryFragment" ∷ "NodeVersion" ∷ []

abbrev true_or : Option Bool → Bool
true_or none = true
true_or (some b) = b

abbrev text_or_empty : Option String → String
text_or_empty none = ""
text_or_empty (some s) = s

abbrev pub has_class_object : Option String → Bool
has_class_object none = false
has_class_object (some name) = name == "Object"

-- An issue about the path of a child.
abbrev child_issue : IssueCode → String → List String → String → Issue
unfolding issue
child_issue code text path node_id =
    issue code
      (record (said (text <> display_path path)) { path = some path; node_id = some node_id })

-- The mode of the rule that matches a path.
abbrev pub mode_at : List ExcludeRule → List String → Option ExcludeMode
mode_at exclude child_path = elim (matching_exclude exclude child_path) [
  | none ↦ none
  | some rule ↦ some (mode_of rule)
]

module _ (config : Config) (current : TraversalItem) (metadata : Map NodeMetadata) where
  abbrev pub input_of : NodeMetadata → List String → NodeInput
  input_of m child_path = record {
    metadata = m;
    path = child_path;
    parent_node_id = some current.node_id;
    root_index = current.root_index;
    root_segment_count = current.root_segment_count;
  }

  -- if (shouldBrowseChildren(child.nodeClass)) queue.push(...)
  unfoldable pub enqueue : BrowseReference → List String → Walk → Walk
  enqueue child child_path w =
      if has_class_object child.node_class
      then record w {
        queue =
            w.queue
            ++ record {
              node_id = child.node_id;
              root_index = current.root_index;
              root_segment_count = current.root_segment_count;
              path = child_path;
            }
              ∷ [];
      }
      else w

  -- What the exclusion rule of the path says to do.
  unfoldable pub apply_mode :
      Option ExcludeMode → Option NodeMetadata → BrowseReference → List String → Walk → Walk
  unfolding enqueue child_issue
  apply_mode (some prune) m child child_path w = record w {
    issues = w.issues ++ child_issue branch_pruned "Pruned " child_path child.node_id ∷ [];
  }
  apply_mode (some omit) m child child_path w = enqueue child child_path (record w {
    issues = w.issues ++ child_issue node_omitted "Omitted " child_path child.node_id ∷ [];
  })
  apply_mode none none child child_path w = w
  apply_mode none (some m) child child_path w = enqueue child child_path (record w {
    nodes = add_or_update_node config.locale_compare w.nodes (input_of m child_path);
  })

  abbrev pub reference_type_of : BrowseReference → String
  reference_type_of child = config.strip_namespace_zero (text_or_empty child.reference_type_id)

  -- A child with a browse name and an id.
  unfoldable pub visit_named : String → BrowseReference → Walk → Walk
  unfolding apply_mode
  visit_named browse_name child w =
      let child_path = current.path ++ browse_name ∷ [] in
      if (reference_type_of child == "i=46") && has browse_name metadata_property_names
      then w
      else apply_mode (mode_at config.exclude child_path) (get child.node_id metadata) child
          child_path
          (record w {
            references =
                w.references
                ++ record {
                  source_node_id = current.node_id;
                  target_node_id = child.node_id;
                  reference_type = reference_type_of child;
                  is_forward = true_or child.is_forward;
                  browse_name = browse_name;
                }
                  ∷ [];
          })

  unfoldable pub visit_child : Option String → BrowseReference → Walk → Walk
  unfolding visit_named
  visit_child none child w = w
  visit_child (some name) child w = if usable_id child.node_id then visit_named name child w else w

  -- for (const child of children)
  unfoldable pub visit_children : List BrowseReference → Walk → Walk
  unfolding visit_child
  visit_children [] w = w
  visit_children (child ∷ children) w =
      visit_children children (visit_child (usable_name child.browse_name) child w)

-- ===== src/Codegen/Discover/Walk/State.antt =====
-- packages/codegen/src/discover.ts: what the walk of `discover` is given, the state of its loop, and
-- the state before the loop, with the nodes of the roots.
use Prim.Native.Nat.{Ordering}
use effect_opcua.Prelude.{ℕ, String, none, List, [], ◌∷◌, map, length, Bool}
use effect_opcua.Prelude.Maps.{Map}
use effect_opcua.Client.Effect.{Exit}
use effect_opcua.Client.Metadata.Nodes.{NodeMetadata, NodeResult}
use effect_opcua.Codegen.Issues.{Issue}
use effect_opcua.Codegen.Discover.{ExcludeRule, BrowseReference}
use effect_opcua.Codegen.Discover.Nodes.{NodeDraft, add_or_update_node}

pub data BrowseResult : Type 0 where
  references_result : List BrowseReference → BrowseResult
  non_good_status : BrowseResult

-- A CodegenError with its issues, or an error of the client.
pub data DiscoverError (Cause : Type 0) : Type 0 where
  codegen_error : List Issue → DiscoverError Cause
  opcua_error : Cause → DiscoverError Cause

pub record Session (Cause : Type 0) : Type 0 where
  pub browse_children : String → Exit Cause BrowseResult
  pub read_many_node_metadata : List String → Exit Cause (List NodeResult)

-- The configuration and the platform, as far as the walk uses them.
pub record Config : Type 0 where
  pub exclude : List ExcludeRule
  pub fail_on_browse_failure : Bool
  pub locale_compare : String → String → Ordering
  pub strip_namespace_zero : String → String

pub record TraversalItem : Type 0 where
  pub node_id : String
  pub root_index : ℕ
  pub root_segment_count : ℕ
  pub path : List String

pub record DiscoveredReference : Type 0 where
  pub source_node_id : String
  pub target_node_id : String
  pub reference_type : String
  pub is_forward : Bool
  pub browse_name : String

-- What the loop changes.
pub record Walk : Type 0 where
  pub queue : List TraversalItem
  pub visited_paths : List String
  pub nodes : Map NodeDraft
  pub references : List DiscoveredReference
  pub issues : List Issue

-- A root that resolveRoot found, with its metadata.
pub record RootNode : Type 0 where
  pub node_id : String
  pub root_index : ℕ
  pub path : List String
  pub metadata : NodeMetadata

-- The nodes of the roots.
unfoldable pub add_roots : Config → List RootNode → Map NodeDraft → Map NodeDraft
add_roots config [] nodes = nodes
add_roots config (root ∷ roots) nodes = add_roots config roots (
    add_or_update_node config.locale_compare nodes (record {
      metadata = root.metadata;
      path = root.path;
      parent_node_id = none;
      root_index = root.root_index;
      root_segment_count = length root.path;
    }))

abbrev pub item_of_root : RootNode → TraversalItem
item_of_root root = record {
  node_id = root.node_id;
  root_index = root.root_index;
  root_segment_count = length root.path;
  path = root.path;
}

-- The state before the loop.
unfoldable pub start_walk : Config → List RootNode → Walk
unfolding add_roots
start_walk config roots = record {
  queue = map item_of_root roots;
  visited_paths = [];
  nodes = add_roots config roots [];
  references = [];
  issues = [];
}

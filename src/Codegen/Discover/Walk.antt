-- ===== src/Codegen/Discover/Walk.antt =====
-- packages/codegen/src/discover.ts: the breadth-first walk of `discover` from the roots. The session is
-- the one of the client, whose answers are functions of the question; the walk runs on fuel.
pub mod State
pub mod Children
unfoldable pub use State.*
unfoldable pub use Children.*
use effect_opcua.Prelude.{
  ℕ, zero, suc, String, Option, none, some, List, [], ◌∷◌, ◌++◌, Bool, true, false, if◌then◌else◌,
}
use effect_opcua.Prelude.Sets.{has, add}
use effect_opcua.Prelude.Maps.{Map, set}
use effect_opcua.Prelude.Text.{join, ◌<>◌}
use effect_opcua.Client.Effect.{Exit, succeeded, failed}
use effect_opcua.Client.Metadata.Nodes.{NodeMetadata, NodeResult, success, failure}
use effect_opcua.Codegen.Issues.{
  Severity, error, Issue, issue, error_issue, said, browse_failure, browse_ambiguous_path,
  metadata_read_failed, candidates,
}
use effect_opcua.Codegen.Names.Surface.{nul_text}
use effect_opcua.Codegen.Discover.{
  BrowseReference, selected_child_references, duplicate_browse_name, metadata_target_node_ids,
}

-- results.find((result) => result._tag === "Failure")
unfoldable pub first_failure : List NodeResult → Option String
first_failure [] = none
first_failure (failure node_id _ ∷ results) = some node_id
first_failure (success _ _ ∷ results) = first_failure results

-- The Map of the results that succeeded.
unfoldable pub metadata_map : List NodeResult → Map NodeMetadata → Map NodeMetadata
metadata_map [] m = m
metadata_map (failure _ _ ∷ results) m = metadata_map results m
metadata_map (success node_id metadata ∷ results) m = metadata_map results (set node_id metadata m)

module _ {Cause : Type 0} (session : Session Cause) (config : Config) where
  settle_metadata : List NodeResult → Option String → Exit (DiscoverError Cause) (Map NodeMetadata)
  unfolding metadata_map error_issue
  settle_metadata results none = succeeded (metadata_map results [])
  settle_metadata results (some node_id) = failed (
      codegen_error (
        error_issue metadata_read_failed
          (record (said ("Could not read metadata for " <> node_id)) { node_id = some node_id })
        ∷ []))

  metadata_answer : Exit Cause (List NodeResult) → Exit (DiscoverError Cause) (Map NodeMetadata)
  unfolding settle_metadata first_failure
  metadata_answer (failed cause) = failed (opcua_error cause)
  metadata_answer (succeeded results) = settle_metadata results (first_failure results)

  metadata_of : List String → Exit (DiscoverError Cause) (Map NodeMetadata)
  unfolding metadata_answer
  metadata_of [] = succeeded []
  metadata_of (target ∷ targets) =
      metadata_answer (session.read_many_node_metadata (target ∷ targets))

  unfoldable pub read_child_metadata :
      List BrowseReference → List String → Exit (DiscoverError Cause) (Map NodeMetadata)
  unfolding metadata_of metadata_target_node_ids
  read_child_metadata children parent_path =
      metadata_of (metadata_target_node_ids children config.exclude parent_path)

  unfoldable pub continue_with :
      TraversalItem
      → List BrowseReference
      → Exit (DiscoverError Cause) (Map NodeMetadata)
      → Walk
      → Exit (DiscoverError Cause) Walk
  unfolding visit_children
  continue_with current children (failed e) w = failed e
  continue_with current children (succeeded metadata) w =
      succeeded (visit_children config current metadata children w)

  -- The children of a node that was browsed, with what duplicateBrowseName found.
  unfoldable pub visit_browsed :
      TraversalItem
      → List BrowseReference
      → Option (String × List String)
      → Walk
      → Exit (DiscoverError Cause) Walk
  unfolding continue_with read_child_metadata error_issue
  visit_browsed current children (some (name, found)) w = failed (
      codegen_error (
        error_issue browse_ambiguous_path
          (record (said "Multiple children have the same BrowseName segment") {
            path = some (current.path ++ name ∷ []);
            cause = candidates found;
          })
        ∷ []))
  visit_browsed current children none w =
      continue_with current children (read_child_metadata children current.path) w

  abbrev failure_severity : Bool → Option Severity
  failure_severity true = some error
  failure_severity false = none

  abbrev browse_issue : TraversalItem → Issue
  unfolding issue
  browse_issue current =
      issue browse_failure (record (said ("Could not browse " <> current.node_id)) {
        severity = failure_severity config.fail_on_browse_failure;
        node_id = some current.node_id;
        path = some current.path;
      })

  unfoldable pub visit_answer :
      TraversalItem → Exit Cause BrowseResult → Walk → Exit (DiscoverError Cause) Walk
  unfolding visit_browsed selected_child_references duplicate_browse_name browse_issue
  visit_answer current (failed cause) w = failed (opcua_error cause)
  visit_answer current (succeeded non_good_status) w =
      if config.fail_on_browse_failure
      then failed (codegen_error (browse_issue current ∷ []))
      else succeeded (record w { issues = w.issues ++ browse_issue current ∷ [] })
  visit_answer current (succeeded (references_result references)) w =
      let children =
        selected_child_references config.locale_compare config.strip_namespace_zero references in
      visit_browsed current children (duplicate_browse_name children) w

  abbrev pub visit_key : TraversalItem → String
  unfolding join
  visit_key current = current.node_id <> (nul_text <> join nul_text current.path)

  -- One round of the loop, after the first of the queue is taken off.
  unfoldable pub visit_item : TraversalItem → Walk → Exit (DiscoverError Cause) Walk
  unfolding visit_answer has add
  visit_item current w =
      if has (visit_key current) w.visited_paths
      then succeeded w
      else visit_answer current (session.browse_children current.node_id)
          (record w { visited_paths = add (visit_key current) w.visited_paths })

  abbrev pub go_on :
      (Walk → Option (Exit (DiscoverError Cause) Walk))
      → Exit (DiscoverError Cause) Walk
      → Option (Exit (DiscoverError Cause) Walk)
  go_on rest (failed e) = some (failed e)
  go_on rest (succeeded w) = rest w

  unfoldable pub walk_round :
      (Walk → Option (Exit (DiscoverError Cause) Walk))
      → List TraversalItem
      → Walk
      → Option (Exit (DiscoverError Cause) Walk)
  unfolding visit_item
  walk_round rest [] w = some (succeeded w)
  walk_round rest (current ∷ queue) w = go_on rest (visit_item current (record w { queue = queue }))

  -- while (queue.length > 0); `none` means that the fuel ran out.
  unfoldable pub walk_loop : ℕ → Walk → Option (Exit (DiscoverError Cause) Walk)
  unfolding walk_round
  walk_loop zero w = none
  walk_loop (suc fuel) w = walk_round (walk_loop fuel) w.queue w

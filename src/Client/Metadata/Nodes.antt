-- ===== src/Client/Metadata/Nodes.antt =====
-- `nodes` of packages/client/src/internal/metadata/service.ts: the attributes of many nodes are read in
-- batches and given back node by node.
pub mod Attributes
pub mod Batches
unfoldable pub use Attributes.*
use effect_opcua.Prelude.{
  ℕ, String, List, [], ◌∷◌, ◌++◌, map, flat_map, nat_eq, length, if◌then◌else◌,
}
use effect_opcua.Client.Effect.{Exit, succeeded, failed}
use effect_opcua.Client.Batch.{chunks_of, chunks_or_nil}

module _ {Cause : Type 0} (session : Session Cause) where
  -- readPlan.map(...), which carries the offset from entry to entry.
  unfoldable pub results_from : List String → List DataValue → ℕ → List String → List NodeResult
  results_from namespace_uris values offset [] = []
  results_from namespace_uris values offset (node_id ∷ node_ids) =
      let (m, next) = entry_values session values offset in
      node_result session namespace_uris node_id m
      ∷ results_from namespace_uris values next node_ids

  abbrev pub nodes_to_read : String → List (String × String)
  nodes_to_read node_id = map (λ (attribute : String). (node_id, attribute)) metadata_attributes

  -- The check of the number of values, and what follows it.
  unfoldable pub settle_batch :
      List String
      → List String
      → List (String × String)
      → Exit Cause (List DataValue)
      → Exit (NodesError Cause) (List NodeResult)
  unfolding results_from
  settle_batch namespace_uris node_ids flat_nodes (failed cause) = failed (service cause)
  settle_batch namespace_uris node_ids flat_nodes (succeeded values) =
      if nat_eq (length values) (length flat_nodes)
      then succeeded (results_from namespace_uris values 0 node_ids)
      else failed (expected_values (length flat_nodes) (length values))

  unfoldable pub read_node_metadata_batch :
      List String → List String → Exit (NodesError Cause) (List NodeResult)
  unfolding settle_batch
  read_node_metadata_batch namespace_uris node_ids =
      let flat_nodes = flat_map nodes_to_read node_ids in
      settle_batch namespace_uris node_ids flat_nodes (session.read flat_nodes)

  append_results :
      Exit (NodesError Cause) (List NodeResult)
      → Exit (NodesError Cause) (List NodeResult)
      → Exit (NodesError Cause) (List NodeResult)
  append_results (failed e) rest = failed e
  append_results (succeeded rs) (failed e) = failed e
  append_results (succeeded rs) (succeeded rs') = succeeded (rs ++ rs')

  -- The loop over the batches.
  unfoldable pub read_batches :
      List String → List (List String) → Exit (NodesError Cause) (List NodeResult)
  unfolding append_results read_node_metadata_batch
  read_batches namespace_uris [] = succeeded []
  read_batches namespace_uris (batch ∷ batches) =
      append_results (read_node_metadata_batch namespace_uris batch)
        (read_batches namespace_uris batches)

  unfoldable pub read_with :
      Exit (NodesError Cause) (List String)
      → List String
      → Exit (NodesError Cause) (List NodeResult)
  unfolding read_batches chunks_of
  read_with (failed e) node_ids = failed e
  read_with (succeeded uris) node_ids =
      read_batches uris (chunks_or_nil (chunks_of node_ids max_metadata_nodes_per_read))

  -- `namespace_array` is the answer of namespaceArray().
  unfoldable pub read_many_node_metadata :
      Exit (NodesError Cause) (List String)
      → List String
      → Exit (NodesError Cause) (List NodeResult)
  unfolding read_with
  read_many_node_metadata namespace_array [] = succeeded []
  read_many_node_metadata namespace_array (node_id ∷ node_ids) =
      read_with namespace_array (node_id ∷ node_ids)

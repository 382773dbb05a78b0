-- ===== src/Client/Metadata/Cache.antt =====
-- makeMetadataService of packages/client/src/internal/metadata/service.ts: the namespace array,
-- the metadata of variables and the built-in data types, with the caches that keep them until
-- `invalidate`. The world of an effect is the caches; what the server answers is a function of the question,
-- which may become another one when `invalidate` is called. The metadata of methods are left out.
pub mod Computes
pub mod State
pub mod Transparent
unfoldable pub use State.*
use effect_opcua.Prelude.{ℕ, String, some, List, [], ◌∷◌, if◌then◌else◌}
use effect_opcua.Prelude.Int.{ℤ}
use effect_opcua.Prelude.Maps.{get, set}
use effect_opcua.Client.Effect.{succeeded, Effect, succeed, and_then}
use effect_opcua.Client.Access.{metadata_access, variable_access_capabilities, first_denied}
use effect_opcua.Client.Metadata.BuiltIn.{NodeId}
use effect_opcua.Client.Metadata.Nodes.{NodeMetadata, NodeResult, read_many_node_metadata}

module _ {Codec Cause : Type 0} (answers : Answers Codec Cause) where
  unfoldable pub namespace_array : Effect (Caches) (MetadataError Cause) (List String)
  unfolding cached_or ask
  namespace_array s =
      cached_or s.namespace_array_cache (λ v t. record t { namespace_array_cache = some v })
        (ask answers.namespace_array) s

  -- The namespace array is asked for when there are nodes.
  unfoldable pub nodes : List String → Effect (Caches) (MetadataError Cause) (List NodeResult)
  unfolding namespace_array and_then read_many_node_metadata
  nodes [] = succeed []
  nodes (node_id ∷ node_ids) = and_then namespace_array (λ uris.
      settled (
        from_nodes (read_many_node_metadata answers.session (succeeded uris) (node_id ∷ node_ids))))

  unfoldable pub node : String → Effect (Caches) (MetadataError Cause) NodeMetadata
  unfolding nodes and_then
  node node_id =
      and_then (nodes (node_id ∷ [])) (λ results. settled (first_metadata node_id results))

  unfoldable pub built_in_data_type : NodeId → Effect (Caches) (MetadataError Cause) ℕ
  unfolding cached_or ask
  built_in_data_type id s =
      cached_or (get id.text s.built_in_data_type_cache)
        (λ v t. record t { built_in_data_type_cache = set id.text v t.built_in_data_type_cache })
        (ask (answers.built_in id)) s

  -- variableMetadataFromRaw
  abbrev pub variable_metadata_from_raw :
      String → VariableAttributes → NodeId → ℕ → ℤ → ℕ → VariableMetadata
  unfolding metadata_access
  variable_metadata_from_raw node_id a data_type built_in rank level = record {
    node_id = node_id;
    declared_data_type = data_type;
    built_in_data_type = built_in;
    value_rank = rank;
    array_dimensions = good_value a.array_dimensions;
    access_level = level;
    user_access_level = good_value a.user_access_level;
    access = metadata_access answers.flags level (good_value a.user_access_level);
  }

  unfoldable pub discover_variable_metadata :
      String → Effect (Caches) (MetadataError Cause) VariableMetadata
  unfolding ask required built_in_data_type and_then
  discover_variable_metadata node_id = and_then (ask (answers.read_variable node_id)) (λ a.
      and_then (required "metadata.variable" "DataType is unreadable" (good_value a.data_type))
        (λ data_type.
          and_then
            (required "metadata.variable" "ValueRank is unreadable" (good_value a.value_rank))
            (λ rank.
              and_then
                (required "metadata.variable" "AccessLevel is unreadable"
                  (good_value a.access_level))
                (λ level. and_then (built_in_data_type data_type) (λ built_in.
                  succeed (variable_metadata_from_raw node_id a data_type built_in rank level))))))

  unfoldable pub raw_variable_metadata :
      String → Effect (Caches) (MetadataError Cause) VariableMetadata
  unfolding cached_or discover_variable_metadata
  raw_variable_metadata node_id s =
      cached_or (get node_id s.variable_cache)
        (λ v t. record t { variable_cache = set node_id v t.variable_cache })
        (discover_variable_metadata node_id) s

  unfoldable pub variable :
      VariableDef Codec → Effect (Caches) (MetadataError Cause) VariableMetadata
  unfolding raw_variable_metadata check_denied first_denied variable_access_capabilities ask
      and_then
  variable def = and_then (raw_variable_metadata def.node_id) (λ metadata.
      and_then
        (check_denied (
          first_denied answers.flags def.node_id metadata.access_level metadata.user_access_level
            (variable_access_capabilities def.access)))
        (λ _.
          and_then
            (if answers.requires_structure_runtime def.codec
              then ask answers.ensure_initialized
              else succeed tt)
            (λ _.
              and_then (ask (answers.validate_metadata def.codec metadata))
                (λ _. succeed metadata))))

  -- The calls of the service, with the caches handed from each to the next.
  unfoldable pub serve : Request Codec → Caches → Reply Cause × Caches
  unfolding namespace_array nodes node built_in_data_type variable
  serve namespaces_request s = let (r, t) = namespace_array s in (namespaces_reply r, t)
  serve (nodes_request node_ids) s = let (r, t) = nodes node_ids s in (nodes_reply r, t)
  serve (node_request node_id) s = let (r, t) = node node_id s in (node_reply r, t)
  serve (variable_request def) s = let (r, t) = variable def s in (variable_reply r, t)
  serve (data_type_request id) s = let (r, t) = built_in_data_type id s in (data_type_reply r, t)

-- The steps one after the other.
unfoldable pub serve_all :
    {Codec Cause : Type 0}
    → Answers Codec Cause
    → List (Step Codec Cause)
    → Caches
    → List (Reply Cause)
unfolding serve invalidate
serve_all answers [] s = []
serve_all answers (request r ∷ steps) s =
    let (reply, t) = serve answers r s in reply ∷ serve_all answers steps t
serve_all answers (invalidation later ∷ steps) s =
    invalidated ∷ serve_all later steps (invalidate s)

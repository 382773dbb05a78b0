-- ===== src/Client/Metadata/Cache/State.antt =====
-- makeMetadataService of packages/client/src/internal/metadata/service.ts: what the service is given, its
-- caches, the requests, and the steps that its operations are made of.
use effect_opcua.Prelude.{ℕ, String, Option, none, some, List, [], ◌∷◌, Bool, if◌then◌else◌}
use effect_opcua.Prelude.Int.{ℤ}
use effect_opcua.Prelude.Maps.{Map}
use effect_opcua.Client.Effect.{Exit, succeeded, failed, Effect, and_then}
use effect_opcua.Client.Access.{AccessLevelFlag, AccessDenied, VariableAccess, MetadataAccess}
use effect_opcua.Client.Metadata.BuiltIn.{NodeId}
use effect_opcua.Client.Metadata.Nodes.{
  Session, NodeMetadata, NodeResult, success, failure, ReadFailure, NodesError,
}

-- The value of an attribute: whether its status is good, and the value if it has the type that is
-- asked for.
pub record AttributeValue (A : Type 0) : Type 0 where
  pub good : Bool
  pub value : Option A

-- The answer to a read of the five attributes of a variable, by position; each may be missing.
pub record VariableAttributes : Type 0 where
  pub data_type : Option (AttributeValue NodeId)
  pub value_rank : Option (AttributeValue ℤ)
  pub array_dimensions : Option (AttributeValue (List ℕ))
  pub access_level : Option (AttributeValue ℕ)
  pub user_access_level : Option (AttributeValue ℕ)

pub record VariableMetadata : Type 0 where
  pub node_id : String
  pub declared_data_type : NodeId
  pub built_in_data_type : ℕ
  pub value_rank : ℤ
  pub array_dimensions : Option (List ℕ)
  pub access_level : ℕ
  pub user_access_level : Option ℕ
  pub access : MetadataAccess

pub data MetadataError (Cause : Type 0) : Type 0 where
  service : Cause → MetadataError Cause
  unreadable : String → String → MetadataError Cause
  access_denied : AccessDenied → MetadataError Cause
  reading_nodes : NodesError Cause → MetadataError Cause
  no_node_metadata : String → Option ReadFailure → MetadataError Cause

-- The answers of the server and the other services. `built_in` is resolveBuiltInDataType,
-- `validate_metadata` the codec's.
pub record Answers (Codec Cause : Type 0) : Type 0 where
  pub flags : AccessLevelFlag
  pub namespace_array : Exit Cause (List String)
  pub session : Session Cause
  pub read_variable : String → Exit Cause VariableAttributes
  pub built_in : NodeId → Exit Cause ℕ
  pub requires_structure_runtime : Codec → Bool
  pub ensure_initialized : Exit Cause Unit
  pub validate_metadata : Codec → VariableMetadata → Exit Cause Unit

-- The closure of the service, without the cache of methods.
pub record Caches : Type 0 where
  pub namespace_array_cache : Option (List String)
  pub variable_cache : Map VariableMetadata
  pub built_in_data_type_cache : Map ℕ

pub record VariableDef (Codec : Type 0) : Type 0 where
  pub node_id : String
  pub access : VariableAccess
  pub codec : Codec

-- The calls of the service but for those of `method`.
pub data Request (Codec : Type 0) : Type 0 where
  namespaces_request : Request Codec
  nodes_request : List String → Request Codec
  node_request : String → Request Codec
  variable_request : VariableDef Codec → Request Codec
  data_type_request : NodeId → Request Codec

-- A call, or `invalidate`, from which on the server may give other answers.
pub data Step (Codec Cause : Type 0) : Type 0 where
  request : Request Codec → Step Codec Cause
  invalidation : Answers Codec Cause → Step Codec Cause

pub data Reply (Cause : Type 0) : Type 0 where
  namespaces_reply : Exit (MetadataError Cause) (List String) → Reply Cause
  nodes_reply : Exit (MetadataError Cause) (List NodeResult) → Reply Cause
  node_reply : Exit (MetadataError Cause) NodeMetadata → Reply Cause
  variable_reply : Exit (MetadataError Cause) VariableMetadata → Reply Cause
  data_type_reply : Exit (MetadataError Cause) ℕ → Reply Cause
  invalidated : Reply Cause

abbrev pub empty_caches : Caches
empty_caches = record {
  namespace_array_cache = none;
  variable_cache = [];
  built_in_data_type_cache = [];
}

-- dataValue && isGood(dataValue.statusCode) && the value has the type
abbrev pub good_value : {A : Type 0} → Option (AttributeValue A) → Option A
good_value none = none
good_value (some v) = if v.good then v.value else none

-- An answer of the server.
unfoldable pub ask : {World Cause A : Type 0} → Exit Cause A → Effect World (MetadataError Cause) A
ask (succeeded a) s = (succeeded a, s)
ask (failed cause) s = (failed (service cause), s)

-- What is known without the caches.
abbrev pub settled : {World E A : Type 0} → Exit E A → Effect World E A
settled x s = (x, s)

abbrev pub from_nodes :
    {Cause A : Type 0} → Exit (NodesError Cause) A → Exit (MetadataError Cause) A
from_nodes (succeeded a) = succeeded a
from_nodes (failed e) = failed (reading_nodes e)

-- The metadata of the first result.
abbrev pub first_metadata :
    {Cause : Type 0} → String → List NodeResult → Exit (MetadataError Cause) NodeMetadata
first_metadata node_id [] = failed (no_node_metadata node_id none)
first_metadata node_id (failure _ reason ∷ results) =
    failed (no_node_metadata node_id (some reason))
first_metadata node_id (success _ metadata ∷ results) = succeeded metadata

-- A value that must be there, or the error of the operation.
unfoldable pub required :
    {World Cause A : Type 0} → String → String → Option A → Effect World (MetadataError Cause) A
required operation text none s = (failed (unreadable operation text), s)
required operation text (some a) s = (succeeded a, s)

-- A cached value, or the value of the program, which is then stored.
unfoldable pub cached_or :
    {World E A : Type 0} → Option A → (A → World → World) → Effect World E A → Effect World E A
unfolding and_then
cached_or (some a) store program s = (succeeded a, s)
cached_or none store program s = and_then program (λ a t. (succeeded a, store a t)) s

unfoldable pub invalidate : Caches → Caches
invalidate s = record {
  namespace_array_cache = none;
  variable_cache = [];
  built_in_data_type_cache = [];
}

-- The loop over the capabilities fails at the first that is denied.
unfoldable pub check_denied :
    {World Cause : Type 0} → Option AccessDenied → Effect World (MetadataError Cause) Unit
check_denied none s = (succeeded tt, s)
check_denied (some error) s = (failed (access_denied error), s)

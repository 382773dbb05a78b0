-- ===== src/Client/Batch/Operations/Inputs.antt =====
-- The items of readManyWithState and writeManyWithState of
-- packages/client/src/internal/batch/operations.ts: what callers pass, and its normalization.
use effect_opcua.Prelude.{ℕ, String, Option, none, some, Bool, true, false, if◌then◌else◌}
use effect_opcua.Client.Effect.{Exit, succeeded, failed, Effect, succeed, fail}
use effect_opcua.Client.Access.{VariableAccess, read, write}
use effect_opcua.Client.Metadata.Cache.{VariableMetadata}
use effect_opcua.Client.Batch.{BatchOptions}
use effect_opcua.Client.Batch.Keyed.{
  KeyedEntry, ConfigurationError, Cause, no_readable_definition, no_writable_pair,
  no_writable_definition, unparsable_node_id,
}
use effect_opcua.Client.Batch.Options.{ServiceValue, no_service, ServiceLimits}
use effect_opcua.Client.Variable.{VariableDef, ReadError, Services}
use effect_opcua.Client.Variable.Write.{PreparedWriteVariable, WriteError, WriteServices}

-- The members of OpcuaError that occur here; `Denied` stands for the errors of the metadata service.
pub data SessionError (Cause EncodeError Denied : Type 0) : Type 0 where
  configuration : ConfigurationError → SessionError Cause EncodeError Denied
  reading : ReadError Cause → SessionError Cause EncodeError Denied
  writing : WriteError Cause EncodeError → SessionError Cause EncodeError Denied
  metadata_error : Denied → SessionError Cause EncodeError Denied

-- A value that may be a variable definition.
pub data Definition (Codec : Type 0) : Type 0 where
  variable_def : VariableAccess → VariableDef Codec → Definition Codec
  no_variable_def : Definition Codec

-- A value that may be a pair of a definition and a value.
pub data WriteInput (Codec Value : Type 0) : Type 0 where
  write_pair : Definition Codec → Value → WriteInput Codec Value
  no_pair : WriteInput Codec Value

pub record NormalizedReadItem (Codec : Type 0) : Type 0 where
  pub access : VariableAccess
  pub def : VariableDef Codec
  pub node_id : String
  pub raw_node_id : ℕ

pub record NormalizedWriteItem (Codec Value : Type 0) : Type 0 where
  pub access : VariableAccess
  pub def : VariableDef Codec
  pub value : Value
  pub node_id : String
  pub raw_node_id : ℕ

abbrev pub ReadEntry : Type 0 → Type 0
ReadEntry Codec = KeyedEntry (NormalizedReadItem Codec)

abbrev pub WriteEntry : Type 0 → Type 0 → Type 0
WriteEntry Codec Value = KeyedEntry (NormalizedWriteItem Codec Value)

-- An entry of writeMany after its preflight.
abbrev pub ReadyEntry : Type 0 → Type 0 → Type 0
ReadyEntry Codec Value = KeyedEntry (PreparedWriteVariable Codec Value)

abbrev pub is_readable : VariableAccess → Bool
is_readable write = false
is_readable _ = true

abbrev pub is_writable : VariableAccess → Bool
is_writable read = false
is_writable _ = true

-- coerceNodeId and toString of node-opcua; the number stands for the NodeId.
pub record NodeIds (Cause : Type 0) : Type 0 where
  pub coerce : String → Exit Cause ℕ
  pub text : ℕ → String

abbrev pub item_error : String → String → Cause → ConfigurationError
item_error operation key cause = record { operation = operation; key = some key; cause = cause }

abbrev pub batch_options_of : ServiceLimits → Option BatchOptions
batch_options_of limits = some (record {
  max_items_per_request = some limits.nodes_per_request;
  max_concurrent_requests = some limits.concurrent_requests;
})

abbrev pub defaults_of : Option ServiceValue → ServiceValue
defaults_of none = no_service
defaults_of (some defaults) = defaults

-- SessionOperationsState: the part of the session that the two operations use. `metadata` is
-- metadata.variable.
pub record SessionState
    (World Cause Codec Payload DecodeError A Value Encoded EncodeError Denied : Type 0)
    : Type 0 where
  pub reads : Services World Cause Codec Payload DecodeError A
  pub writes : WriteServices World Cause Codec Value Encoded EncodeError
  pub node_ids : NodeIds Cause
  pub metadata : VariableAccess → VariableDef Codec → Effect World Denied VariableMetadata
  pub read_limits : Option ServiceValue
  pub write_limits : Option ServiceValue

module _ {World Cause Codec Payload DecodeError A Value Encoded EncodeError Denied : Type 0}
    (state : SessionState World Cause Codec Payload DecodeError A Value Encoded EncodeError
      Denied) where
  abbrev pub coerced :
      {Item : Type 0}
      → String
      → String
      → (ℕ → Item)
      → Exit Cause ℕ
      → Effect World (SessionError Cause EncodeError Denied) Item
  coerced operation key item (succeeded raw_node_id) = succeed (item raw_node_id)
  coerced operation key item (failed cause) =
      fail (configuration (item_error operation key unparsable_node_id))

  unfoldable pub normalize_read_many_item :
      String
      → Definition Codec
      → Effect World (SessionError Cause EncodeError Denied) (NormalizedReadItem Codec)
  normalize_read_many_item key no_variable_def =
      fail (configuration (item_error "readMany.items" key no_readable_definition))
  normalize_read_many_item key (variable_def access def) =
      if is_readable access
      then coerced "readMany.items" key
          (λ raw_node_id. record {
            access = access;
            def = def;
            node_id = state.node_ids.text raw_node_id;
            raw_node_id = raw_node_id;
          })
          (state.node_ids.coerce def.node_id)
      else fail (configuration (item_error "readMany.items" key no_readable_definition))

  unfoldable pub normalize_write_many_item :
      String
      → WriteInput Codec Value
      → Effect World (SessionError Cause EncodeError Denied) (NormalizedWriteItem Codec Value)
  normalize_write_many_item key no_pair =
      fail (configuration (item_error "writeMany.items" key no_writable_pair))
  normalize_write_many_item key (write_pair no_variable_def value) =
      fail (configuration (item_error "writeMany.items" key no_writable_definition))
  normalize_write_many_item key (write_pair (variable_def access def) value) =
      if is_writable access
      then coerced "writeMany.items" key
          (λ raw_node_id. record {
            access = access;
            def = def;
            value = value;
            node_id = state.node_ids.text raw_node_id;
            raw_node_id = raw_node_id;
          })
          (state.node_ids.coerce def.node_id)
      else fail (configuration (item_error "writeMany.items" key no_writable_definition))

-- ===== src/Client/Batch/Operations.antt =====
-- readManyWithState and writeManyWithState of packages/client/src/internal/batch/operations.ts: the
-- keyed batch operation with the metadata of variables and the requests of many variables.
pub mod Inputs
pub mod Preflight
pub mod Reads
pub mod Refused
pub mod Writes
pub mod Tests
unfoldable pub use Inputs.*
use effect_opcua.Prelude.{some, List, [], ◌∷◌, map}
use effect_opcua.Prelude.Maps.{Map}
use effect_opcua.Client.Effect.{Effect, succeed, and_then, widen}
use effect_opcua.Client.Values.{DataValue, StatusCode}
use effect_opcua.Client.Batch.{ForEach}
use effect_opcua.Client.Batch.Keyed.{
  Cause, Items, KeyedBatchSpec, validate_unique_targets, run_keyed_batch_operation,
}
use effect_opcua.Client.Batch.Options.{
  ServiceValue, OptionsValue, ServiceLimits, ReadManyOptions, strict, unchecked,
  normalize_read_many_options, normalize_write_many_options,
}
use effect_opcua.Client.Variable.{
  PreparedReadVariable, ReadResult, ReadError, read_prepared_variables,
}
use effect_opcua.Client.Variable.Write.{
  PreparedWriteVariable, WriteValue, WriteResult, WriteError, write_prepared_variables,
}

module _ {World Cause Codec Payload DecodeError A Value Encoded EncodeError Denied : Type 0}
    (state : SessionState World Cause Codec Payload DecodeError A Value Encoded EncodeError
      Denied) where
  -- Effect.forEach with `discard`.
  unfoldable pub check_all :
      List (ReadEntry Codec) → Effect World (SessionError Cause EncodeError Denied) Unit
  unfolding and_then widen
  check_all [] = succeed tt
  check_all (entry ∷ entries) =
      and_then (widen metadata_error (state.metadata entry.normalized.access entry.normalized.def))
        (λ _. check_all entries)

  unfoldable pub read_preflight :
      List (ReadEntry Codec)
      → ReadManyOptions
      → Effect World (SessionError Cause EncodeError Denied) (List (ReadEntry Codec))
  unfolding and_then check_all
  read_preflight entries options = elim options.validation [
    | strict ↦ and_then (check_all entries) (λ _. succeed entries)
    | unchecked ↦ succeed entries
  ]

  abbrev pub prepared_read : ReadEntry Codec → PreparedReadVariable Codec
  prepared_read entry = record {
    def = entry.normalized.def;
    raw_node_id = entry.normalized.raw_node_id;
  }

  abbrev pub read_many_spec :
      ForEach World (ReadError Cause) (List (PreparedReadVariable Codec)) (List (DataValue Payload))
      → KeyedBatchSpec World
          (SessionError Cause EncodeError Denied)
          (Definition Codec)
          OptionsValue
          ServiceValue
          ReadManyOptions
          (NormalizedReadItem Codec)
          (NormalizedReadItem Codec)
          (ReadResult Payload DecodeError A)
          (ReadResult Payload DecodeError A)
  read_many_spec for_each = record {
    operation = "readMany";
    normalize_options = λ options defaults.
        normalize_read_many_options configuration options (defaults_of defaults);
    normalize_item = λ key input options. normalize_read_many_item state key input;
    validate_items = some (λ entries options.
        validate_unique_targets configuration "readMany.items"
          (λ (entry : ReadEntry Codec). entry.normalized.node_id) entries);
    preflight = some read_preflight;
    as_ready = λ entries. entries;
    execute = λ entries options. widen reading (
        read_prepared_variables state.reads for_each (map prepared_read entries)
          (batch_options_of options.limits));
    to_public_result = λ entry raw. succeed raw;
  }

  unfoldable pub read_many_with_state :
      ForEach World (ReadError Cause) (List (PreparedReadVariable Codec)) (List (DataValue Payload))
      → Items (Definition Codec)
      → OptionsValue
      → Effect World
          (SessionError Cause EncodeError Denied)
          (Map (ReadResult Payload DecodeError A))
  unfolding run_keyed_batch_operation normalize_read_many_options normalize_read_many_item
      validate_unique_targets read_preflight read_prepared_variables widen
  read_many_with_state for_each items options =
      run_keyed_batch_operation configuration (read_many_spec for_each) items options
        state.read_limits

  -- Effect.forEach over Effect.map of metadata.variable.
  unfoldable pub write_preflight :
      List (WriteEntry Codec Value)
      → Effect World (SessionError Cause EncodeError Denied) (List (ReadyEntry Codec Value))
  unfolding and_then widen
  write_preflight [] = succeed []
  write_preflight (entry ∷ entries) =
      and_then (widen metadata_error (state.metadata entry.normalized.access entry.normalized.def))
        (λ metadata. and_then (write_preflight entries) (λ ready. succeed (
          record {
            key = entry.key;
            index = entry.index;
            normalized = record {
              def = entry.normalized.def;
              metadata = metadata;
              value = entry.normalized.value;
              raw_node_id = entry.normalized.raw_node_id;
            };
          }
          ∷ ready)))

  abbrev pub write_many_spec :
      ForEach World (WriteError Cause EncodeError) (List (WriteValue Encoded)) (List StatusCode)
      → KeyedBatchSpec World
          (SessionError Cause EncodeError Denied)
          (WriteInput Codec Value)
          OptionsValue
          ServiceValue
          ServiceLimits
          (NormalizedWriteItem Codec Value)
          (PreparedWriteVariable Codec Value)
          WriteResult
          WriteResult
  write_many_spec for_each = record {
    operation = "writeMany";
    normalize_options = λ options defaults.
        normalize_write_many_options configuration options (defaults_of defaults);
    normalize_item = λ key input options. normalize_write_many_item state key input;
    validate_items = some (λ entries options.
        validate_unique_targets configuration "writeMany.items"
          (λ (entry : WriteEntry Codec Value). entry.normalized.node_id) entries);
    preflight = some (λ entries options. write_preflight entries);
    as_ready = λ entries. [];
    execute = λ entries options. widen writing (
        write_prepared_variables state.writes for_each
          (map (λ (entry : ReadyEntry Codec Value). entry.normalized) entries)
          (batch_options_of options));
    to_public_result = λ entry raw. succeed raw;
  }

  unfoldable pub write_many_with_state :
      ForEach World (WriteError Cause EncodeError) (List (WriteValue Encoded)) (List StatusCode)
      → Items (WriteInput Codec Value)
      → OptionsValue
      → Effect World (SessionError Cause EncodeError Denied) (Map WriteResult)
  unfolding run_keyed_batch_operation normalize_write_many_options normalize_write_many_item
      validate_unique_targets write_preflight write_prepared_variables widen
  write_many_with_state for_each items options =
      run_keyed_batch_operation configuration (write_many_spec for_each) items options
        state.write_limits

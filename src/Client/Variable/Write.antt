-- ===== src/Client/Variable/Write.antt =====
-- writePreparedVariables of packages/client/src/internal/variable/operations.ts, with writeResult,
-- encodeWriteValue and codecMetadata: every value is encoded before the first request.
pub mod Unencodable
use effect_opcua.Prelude.{
  ℕ, suc, String, Option, none, some, List, [], ◌∷◌, length, Bool, nat_eq, get_elem?, any,
  if◌then◌else◌,
}
use effect_opcua.Prelude.Int.{ℤ}
use effect_opcua.Client.Effect.{Effect, succeed, fail, and_then}
use effect_opcua.Client.Values.{StatusCode, StatusInfo, is_good, normalize_status_code}
use effect_opcua.Client.Batch.{BatchOptions, ForEach, run_chunked}
use effect_opcua.Client.Metadata.BuiltIn.{NodeId}
use effect_opcua.Client.Metadata.Cache.{VariableMetadata}
use effect_opcua.Client.Variable.{VariableDef, try_promise}

-- PreparedWriteVariable; the number stands for the parsed node id.
pub record PreparedWriteVariable (Codec Value : Type 0) : Type 0 where
  pub def : VariableDef Codec
  pub metadata : VariableMetadata
  pub value : Value
  pub raw_node_id : ℕ

pub record CodecMetadata : Type 0 where
  pub node_id : String
  pub value_rank : ℤ
  pub array_dimensions : Option (List ℕ)
  pub declared_data_type : NodeId
  pub built_in_data_type : ℕ

-- A WriteValueOptions of the attribute Value.
pub record WriteValue (Encoded : Type 0) : Type 0 where
  pub node_id : ℕ
  pub value : Encoded

pub data WriteResult : Type 0 where
  written : String → StatusInfo → WriteResult
  non_good_status : String → StatusInfo → WriteResult

-- The errors of the codec, of a request, and of a status that is missing.
pub data WriteError (Cause EncodeError : Type 0) : Type 0 where
  not_encoded : EncodeError → WriteError Cause EncodeError
  service_error : Cause → WriteError Cause EncodeError
  expected_statuses : ℕ → ℕ → WriteError Cause EncodeError
  missing_status : ℕ → WriteError Cause EncodeError

abbrev pub codec_metadata : VariableMetadata → CodecMetadata
codec_metadata metadata = record {
  node_id = metadata.node_id;
  value_rank = metadata.value_rank;
  array_dimensions = metadata.array_dimensions;
  declared_data_type = metadata.declared_data_type;
  built_in_data_type = metadata.built_in_data_type;
}

-- The session, the codecs and the structure runtime.
pub record WriteServices (World Cause Codec Value Encoded EncodeError : Type 0) : Type 0 where
  pub write : List (WriteValue Encoded) → Effect World Cause (List StatusCode)
  pub requires_structure_runtime : Codec → Bool
  pub ensure_initialized : Effect World (WriteError Cause EncodeError) Unit
  pub encode : Codec → Value → CodecMetadata → Effect World (WriteError Cause EncodeError) Encoded

unfoldable pub write_result : String → StatusCode → WriteResult
write_result node_id status_code =
    if is_good status_code
    then written node_id (normalize_status_code status_code)
    else non_good_status node_id (normalize_status_code status_code)

module _ {World Cause Codec Value Encoded EncodeError : Type 0}
    (services : WriteServices World Cause Codec Value Encoded EncodeError) where
  unfoldable pub encode_write_value :
      PreparedWriteVariable Codec Value
      → Effect World (WriteError Cause EncodeError) (WriteValue Encoded)
  unfolding and_then
  encode_write_value entry =
      and_then (services.encode entry.def.codec entry.value (codec_metadata entry.metadata))
        (λ variant. succeed (record { node_id = entry.raw_node_id; value = variant }))

  -- Effect.forEach, one after the other.
  unfoldable pub encode_all :
      List (PreparedWriteVariable Codec Value)
      → Effect World (WriteError Cause EncodeError) (List (WriteValue Encoded))
  unfolding and_then
  encode_all [] = succeed []
  encode_all (entry ∷ entries) =
      and_then (encode_write_value entry)
        (λ value. and_then (encode_all entries) (λ values. succeed (value ∷ values)))

  unfoldable pub check_statuses :
      List (WriteValue Encoded)
      → List StatusCode
      → Effect World (WriteError Cause EncodeError) (List StatusCode)
  check_statuses chunk status_codes =
      if nat_eq (length status_codes) (length chunk)
      then succeed status_codes
      else fail (expected_statuses (length chunk) (length status_codes))

  unfoldable pub write_chunk :
      List (WriteValue Encoded) → ℕ → Effect World (WriteError Cause EncodeError) (List StatusCode)
  unfolding and_then try_promise check_statuses
  write_chunk chunk index =
      and_then (try_promise service_error (services.write chunk)) (check_statuses chunk)

  abbrev result_at :
      String → ℕ → Option StatusCode → Effect World (WriteError Cause EncodeError) WriteResult
  result_at node_id index none = fail (missing_status index)
  result_at node_id index (some status_code) = succeed (write_result node_id status_code)

  -- entries.map((entry, index) => ...), from an index on.
  unfoldable pub results_from :
      List StatusCode
      → ℕ
      → List (PreparedWriteVariable Codec Value)
      → Effect World (WriteError Cause EncodeError) (List WriteResult)
  unfolding and_then write_result
  results_from status_codes index [] = succeed []
  results_from status_codes index (entry ∷ entries) =
      and_then (result_at entry.def.node_id index (get_elem? status_codes index)) (λ result.
        and_then (results_from status_codes (suc index) entries)
          (λ results. succeed (result ∷ results)))

  unfoldable pub initialize_writes :
      List (PreparedWriteVariable Codec Value) → Effect World (WriteError Cause EncodeError) Unit
  initialize_writes entries =
      if any
        (λ (entry : PreparedWriteVariable Codec Value).
          services.requires_structure_runtime entry.def.codec)
        entries
      then services.ensure_initialized
      else succeed tt

  unfoldable pub write_prepared_variables :
      ForEach World (WriteError Cause EncodeError) (List (WriteValue Encoded)) (List StatusCode)
      → List (PreparedWriteVariable Codec Value)
      → Option BatchOptions
      → Effect World (WriteError Cause EncodeError) (List WriteResult)
  unfolding and_then initialize_writes encode_all run_chunked write_chunk results_from
  write_prepared_variables for_each entries options = and_then (initialize_writes entries) (λ _.
      and_then (encode_all entries) (λ write_values.
        and_then (run_chunked for_each write_values options write_chunk)
          (λ status_codes. results_from status_codes 0 entries)))

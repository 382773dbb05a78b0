-- ===== src/Client/Variable.antt =====
-- The reads of packages/client/src/internal/variable/operations.ts, with resultFromStatusAndDecode of
-- packages/client/src/internal/values/result.ts: the values of many variables, read in requests.
pub mod Samples
pub mod Tests
pub mod Write
use effect_opcua.Prelude.{
  ℕ, suc, String, Option, none, some, List, [], ◌∷◌, map, length, Bool, false, nat_eq, get_elem?,
  any, if◌then◌else◌,
}
use effect_opcua.Client.Effect.{Exit, succeeded, failed, Effect, succeed, fail, and_then}
use effect_opcua.Client.Values.{
  Variant, DataValue, StatusInfo, VariantInfo, Platform, is_good, normalize_status_code,
  normalize_timestamp, normalize_variant_info, get_or, map_option,
}
use effect_opcua.Client.Batch.{BatchOptions, ForEach, run_chunked}

pub record VariableDef (Codec : Type 0) : Type 0 where
  pub node_id : String
  pub codec : Codec
  pub include_raw : Option Bool

-- PreparedReadVariable; the number stands for the parsed node id.
pub record PreparedReadVariable (Codec : Type 0) : Type 0 where
  pub def : VariableDef Codec
  pub raw_node_id : ℕ

pub record RawSample (Payload : Type 0) : Type 0 where
  pub data_value : DataValue Payload
  pub variant : Option (Variant Payload)

-- The fields that every sample has.
pub record SampleBase (Payload : Type 0) : Type 0 where
  pub node_id : String
  pub status : StatusInfo
  pub source_timestamp : Option String
  pub server_timestamp : Option String
  pub variant : Option VariantInfo
  pub unsafe_raw : Option (RawSample Payload)

-- ReadResult
pub data ReadResult (Payload DecodeError A : Type 0) : Type 0 where
  value : SampleBase Payload → A → ReadResult Payload DecodeError A
  non_good_status : SampleBase Payload → ReadResult Payload DecodeError A
  decode_error : SampleBase Payload → DecodeError → ReadResult Payload DecodeError A

-- The cause of a serviceError, and the error of a value that is missing.
pub data ReadError (Cause : Type 0) : Type 0 where
  service_error : Cause → ReadError Cause
  expected_values : ℕ → ℕ → ReadError Cause
  missing_value : ℕ → ReadError Cause

-- The session, the codecs and the structure runtime.
pub record Services (World Cause Codec Payload DecodeError A : Type 0) : Type 0 where
  pub platform : Platform
  pub read : List ℕ → Effect World Cause (List (DataValue Payload))
  pub requires_structure_runtime : Codec → Bool
  pub ensure_initialized : Effect World (ReadError Cause) Unit
  pub decode : Codec → DataValue Payload → Effect World DecodeError A

-- Effect.tryPromise, whose `catch` is the function
abbrev caught : {World C E A : Type 0} → (C → E) → Exit C A × World → Exit E A × World
caught f (succeeded a, w) = (succeeded a, w)
caught f (failed c, w) = (failed (f c), w)

unfoldable pub try_promise : {World C E A : Type 0} → (C → E) → Effect World C A → Effect World E A
try_promise f program w = caught f (program w)

-- Effect.match, which does not fail.
abbrev matched : {World D E A B : Type 0} → (D → B) → (A → B) → Exit D A × World → Exit E B × World
matched on_failure on_success (succeeded a, w) = (succeeded (on_success a), w)
matched on_failure on_success (failed d, w) = (succeeded (on_failure d), w)

unfoldable pub match_effect :
    {World D E A B : Type 0} → (D → B) → (A → B) → Effect World D A → Effect World E B
match_effect on_failure on_success program w = matched on_failure on_success (program w)

unfoldable pub result_from_status_and_decode :
    {World D E A B : Type 0} → Bool → B → (D → B) → (A → B) → Effect World D A → Effect World E B
unfolding match_effect
result_from_status_and_decode good non_good on_failure on_success decode =
    if good then match_effect on_failure on_success decode else succeed non_good

module _ {World Cause Codec Payload DecodeError A : Type 0}
    (services : Services World Cause Codec Payload DecodeError A) where
  unfoldable pub sample_base : VariableDef Codec → DataValue Payload → SampleBase Payload
  sample_base def data_value = record {
    node_id = def.node_id;
    status = normalize_status_code data_value.status_code;
    source_timestamp = normalize_timestamp services.platform data_value.source_timestamp;
    server_timestamp = normalize_timestamp services.platform data_value.server_timestamp;
    variant = map_option (normalize_variant_info services.platform) data_value.value;
    unsafe_raw =
        if get_or false def.include_raw
        then some (record { data_value = data_value; variant = data_value.value })
        else none;
  }

  unfoldable pub sample_from_data_value :
      VariableDef Codec
      → DataValue Payload
      → Effect World (ReadError Cause) (ReadResult Payload DecodeError A)
  unfolding result_from_status_and_decode
  sample_from_data_value def data_value =
      let base = sample_base def data_value in
      result_from_status_and_decode (is_good data_value.status_code) (non_good_status base)
        (decode_error base) (value base) (services.decode def.codec data_value)

  -- dataValues[index]!, of which the sample is taken.
  unfoldable pub sample_at :
      VariableDef Codec
      → ℕ
      → Option (DataValue Payload)
      → Effect World (ReadError Cause) (ReadResult Payload DecodeError A)
  unfolding sample_from_data_value
  sample_at def index none = fail (missing_value index)
  sample_at def index (some data_value) = sample_from_data_value def data_value

  -- Effect.forEach(items, (item, index) => ...), one after the other from an index on.
  unfoldable pub samples_from :
      List (DataValue Payload)
      → ℕ
      → List (PreparedReadVariable Codec)
      → Effect World (ReadError Cause) (List (ReadResult Payload DecodeError A))
  unfolding sample_at and_then
  samples_from data_values index [] = succeed []
  samples_from data_values index (item ∷ items) =
      and_then (sample_at item.def index (get_elem? data_values index)) (λ result.
        and_then (samples_from data_values (suc index) items)
          (λ results. succeed (result ∷ results)))

  unfoldable pub check_count :
      List (PreparedReadVariable Codec)
      → List (DataValue Payload)
      → Effect World (ReadError Cause) (List (DataValue Payload))
  check_count chunk data_values =
      if nat_eq (length data_values) (length chunk)
      then succeed data_values
      else fail (expected_values (length chunk) (length data_values))

  unfoldable pub read_chunk :
      List (PreparedReadVariable Codec)
      → ℕ
      → Effect World (ReadError Cause) (List (DataValue Payload))
  unfolding and_then try_promise check_count
  read_chunk chunk index =
      and_then
        (try_promise service_error
          (services.read (map (λ (item : PreparedReadVariable Codec). item.raw_node_id) chunk)))
        (check_count chunk)

  unfoldable pub initialize_for :
      List (PreparedReadVariable Codec) → Effect World (ReadError Cause) Unit
  initialize_for items =
      if any
        (λ (item : PreparedReadVariable Codec). services.requires_structure_runtime item.def.codec)
        items
      then services.ensure_initialized
      else succeed tt

  unfoldable pub read_prepared_variables :
      ForEach World (ReadError Cause) (List (PreparedReadVariable Codec)) (List (DataValue Payload))
      → List (PreparedReadVariable Codec)
      → Option BatchOptions
      → Effect World (ReadError Cause) (List (ReadResult Payload DecodeError A))
  unfolding and_then initialize_for run_chunked read_chunk samples_from
  read_prepared_variables for_each items options = and_then (initialize_for items) (λ _.
      and_then (run_chunked for_each items options read_chunk)
        (λ data_values. samples_from data_values 0 items))

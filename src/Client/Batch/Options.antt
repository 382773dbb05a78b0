-- ===== src/Client/Batch/Options.antt =====
-- The options of the keyed batch operations: validateOptionsShape and normalizeServiceOptions of
-- packages/client/src/internal/batch/keyed.ts, and the normalizations of
-- packages/client/src/internal/batch/operations.ts.
pub mod Limits
use effect_opcua.Prelude.{
  ℕ, suc, String, Option, none, some, List, [], ◌∷◌, ◌++◌, map, filter, any, not, Bool, true, false,
  ◌==◌, if◌then◌else◌,
}
use effect_opcua.Prelude.Int.{pos}
use effect_opcua.Prelude.Text.{◌<>◌}
use effect_opcua.Client.Effect.{Effect, succeed, fail, and_then}
use effect_opcua.Client.Batch.{Number, integer}
use effect_opcua.Client.Batch.Keyed.{
  ConfigurationError, Cause, options_no_object, service_no_object, wrong_validation,
  unsupported_options, unsupported_service_option, not_positive,
}

-- The value of a field that a caller passes, undefined where it is missing.
pub data FieldValue : Type 0 where
  undefined_value other_value : FieldValue
  number_value : Number → FieldValue
  text_value : String → FieldValue

-- What is passed for the limits of a service: nothing, null, an object with its own fields, or
-- anything else.
pub data ServiceValue : Type 0 where
  no_service null_service no_object : ServiceValue
  service_object : List (String × FieldValue) → ServiceValue

-- The options of one call, an object with these own keys.
pub record ManyOptions : Type 0 where
  pub keys : List String
  pub validation : FieldValue
  pub service : ServiceValue
  pub service_limits_overrides : ServiceValue

pub data OptionsValue : Type 0 where
  no_options bad_options : OptionsValue
  options_object : ManyOptions → OptionsValue

abbrev pub field : String → List (String × FieldValue) → FieldValue
field key [] = undefined_value
field key ((k, v) ∷ fields) = if k == key then v else field key fields

unfoldable pub unknown_keys : List String → List String → List String
unknown_keys keys allowed = filter (λ key. not (any (λ k. k == key) allowed)) keys

-- optionValue !== undefined && !positiveIntegerOption(optionValue)
abbrev pub is_wrong_limit : FieldValue → Bool
is_wrong_limit undefined_value = false
is_wrong_limit (number_value (integer (pos (suc n)))) = false
is_wrong_limit _ = true

abbrev pub error_of : String → Cause → ConfigurationError
error_of operation cause = record { operation = operation; key = none; cause = cause }

abbrev unsupported_error : String → List String → Option ConfigurationError
unsupported_error operation [] = none
unsupported_error operation (key ∷ keys) =
    some (error_of operation (unsupported_options (key ∷ keys)))

unfoldable pub options_shape_error : String → OptionsValue → List String → Option ConfigurationError
unfolding unknown_keys
options_shape_error operation no_options allowed = none
options_shape_error operation bad_options allowed = some (error_of operation options_no_object)
options_shape_error operation (options_object options) allowed =
    unsupported_error operation (unknown_keys options.keys allowed)

unfoldable pub limits_error :
    String → List (String × FieldValue) → List String → Option ConfigurationError
limits_error operation fields [] = none
limits_error operation fields (key ∷ keys) =
    if is_wrong_limit (field key fields)
    then some (error_of operation (not_positive key))
    else limits_error operation fields keys

abbrev service_fields_error :
    String → List (String × FieldValue) → List String → List String → Option ConfigurationError
service_fields_error operation fields allowed [] = limits_error operation fields allowed
service_fields_error operation fields allowed (key ∷ keys) =
    some (error_of operation (unsupported_service_option key))

unfoldable pub service_options_error :
    String → ServiceValue → List String → Option ConfigurationError
unfolding unknown_keys limits_error
service_options_error operation no_service allowed = none
service_options_error operation null_service allowed = some (error_of operation service_no_object)
service_options_error operation no_object allowed = some (error_of operation service_no_object)
service_options_error operation (service_object fields) allowed =
    service_fields_error operation fields allowed
      (unknown_keys (map (λ (f : String × FieldValue). f.0) fields) allowed)

-- serviceLimitsRecord?.[key]; after the checks it is a number or undefined.
abbrev pub limit_in : ServiceValue → String → Option Number
limit_in (service_object fields) key = elim (field key fields) [
  | number_value n ↦ some n
  | _ ↦ none
]
limit_in _ key = none

abbrev pub first_limit : Option Number → Option Number → Number → Number
first_limit (some n) _ _ = n
first_limit none (some n) _ = n
first_limit none none n = n

abbrev pub service_of : ManyOptions → ServiceValue
service_of options = elim options.service [
  | no_service ↦ options.service_limits_overrides
  | null_service ↦ options.service_limits_overrides
  | given ↦ given
]

-- options?.service ?? options?.serviceLimitsOverrides
abbrev pub service_options : OptionsValue → ServiceValue
service_options (options_object options) = service_of options
service_options _ = no_service

abbrev pub max_nodes_per_request : String
max_nodes_per_request = "maxNodesPerRequest"

abbrev pub max_concurrent_requests : String
max_concurrent_requests = "maxConcurrentRequests"

abbrev pub service_keys : List String
service_keys = max_nodes_per_request ∷ max_concurrent_requests ∷ []

pub data ReadValidation : Type 0 where
  strict unchecked : ReadValidation

-- undefined is "strict"; `none` is an error.
abbrev pub validation_of : FieldValue → Option ReadValidation
validation_of undefined_value = some strict
validation_of (text_value s) =
    if s == "strict" then some strict else if s == "none" then some unchecked else none
validation_of _ = none

abbrev pub validation_field : OptionsValue → FieldValue
validation_field (options_object options) = options.validation
validation_field _ = undefined_value

-- ServiceLimits, in the form that runChunked takes
pub record ServiceLimits : Type 0 where
  pub nodes_per_request : Number
  pub concurrent_requests : Number

pub record ReadManyOptions : Type 0 where
  pub validation : ReadValidation
  pub limits : ServiceLimits

-- The fallback of 250 nodes, or of 50 calls, in one request at a time.
abbrev pub fallback_of : ℕ → String → Number
fallback_of nodes key =
    if key == max_nodes_per_request then integer (pos nodes) else integer (pos 1)

abbrev pub limits_of : (String → Number) → ServiceLimits
limits_of normalized = record {
  nodes_per_request = normalized max_nodes_per_request;
  concurrent_requests = normalized max_concurrent_requests;
}

module _ {World E : Type 0} (configuration_error : ConfigurationError → E) where
  abbrev pub fail_with : Option ConfigurationError → Effect World E Unit
  fail_with none = succeed tt
  fail_with (some error) = fail (configuration_error error)

  unfoldable pub validate_options_shape : String → OptionsValue → List String → Effect World E Unit
  unfolding options_shape_error
  validate_options_shape operation value allowed =
      fail_with (options_shape_error operation value allowed)

  unfoldable pub normalize_service_options :
      ServiceValue
      → ServiceValue
      → String
      → String
      → List String
      → (String → Number)
      → Effect World E (String → Number)
  unfolding and_then service_options_error
  normalize_service_options limits defaults service_operation defaults_operation allowed fallback =
      and_then (fail_with (service_options_error defaults_operation defaults allowed)) (λ _.
        and_then (fail_with (service_options_error service_operation limits allowed)) (λ _.
          succeed
            (λ key. first_limit (limit_in limits key) (limit_in defaults key) (fallback key))))

  unfoldable pub validate_batch_options_shape :
      String → OptionsValue → List String → Effect World E Unit
  unfolding validate_options_shape
  validate_batch_options_shape operation options keys =
      validate_options_shape operation options (keys ++ "service" ∷ "serviceLimitsOverrides" ∷ [])

  -- The second halves of the three normalizations differ in their names and their fallback.
  unfoldable pub normalize_limits :
      String → String → ℕ → OptionsValue → ServiceValue → Effect World E ServiceLimits
  unfolding and_then normalize_service_options
  normalize_limits operation defaults_operation nodes options defaults =
      and_then
        (normalize_service_options (service_options options) defaults
          (operation <> ".options.service") defaults_operation service_keys (fallback_of nodes))
        (λ normalized. succeed (limits_of normalized))

  abbrev checked_validation : Option ReadValidation → Effect World E ReadValidation
  checked_validation (some validation) = succeed validation
  checked_validation none =
      fail (configuration_error (error_of "readMany.options.validation" wrong_validation))

  unfoldable pub normalize_read_many_options :
      OptionsValue → ServiceValue → Effect World E ReadManyOptions
  unfolding and_then validate_batch_options_shape normalize_limits
  normalize_read_many_options options defaults =
      and_then (validate_batch_options_shape "readMany.options" options ("validation" ∷ [])) (λ _.
        and_then (checked_validation (validation_of (validation_field options))) (λ validation.
          and_then (normalize_limits "readMany" "OpcuaSession.batching.read" 250 options defaults)
            (λ limits. succeed (record { validation = validation; limits = limits }))))

  unfoldable pub normalize_write_many_options :
      OptionsValue → ServiceValue → Effect World E ServiceLimits
  unfolding and_then validate_batch_options_shape normalize_limits
  normalize_write_many_options options defaults =
      and_then (validate_batch_options_shape "writeMany.options" options [])
        (λ _. normalize_limits "writeMany" "OpcuaSession.batching.write" 250 options defaults)

  unfoldable pub normalize_call_many_options :
      OptionsValue → ServiceValue → Effect World E ServiceLimits
  unfolding and_then validate_batch_options_shape normalize_limits
  normalize_call_many_options options defaults =
      and_then (validate_batch_options_shape "callMany.options" options [])
        (λ _. normalize_limits "callMany" "OpcuaSession.batching.call" 50 options defaults)

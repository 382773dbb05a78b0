-- ===== src/Client/Batch/Keyed.antt =====
-- packages/client/src/internal/batch/keyed.ts: batches whose items and results stand under keys.
pub mod Composed
pub mod Entries
pub mod Rekeyed
pub mod Targets
use effect_opcua.Prelude.{
  ℕ, suc, String, Option, none, some, List, [], ◌∷◌, length, nat_eq, ◌==◌, if◌then◌else◌,
}
use effect_opcua.Prelude.Maps.{Map, get, set}
use effect_opcua.Client.Effect.{Effect, succeed, fail, and_then}

pub record KeyedEntry (Normalized : Type 0) : Type 0 where
  pub key : String
  pub index : ℕ
  pub normalized : Normalized

-- What configurationError is given here. The texts of the causes are cases.
pub data Cause : Type 0 where
  not_a_record : Cause
  expected_results : ℕ → ℕ → Cause
  duplicate_target : String → String → Cause
  options_no_object service_no_object wrong_validation : Cause
  unsupported_options : List String → Cause
  unsupported_service_option not_positive : String → Cause
  no_readable_definition no_writable_pair no_writable_definition unparsable_node_id : Cause

pub record ConfigurationError : Type 0 where
  pub operation : String
  pub key : Option String
  pub cause : Cause

-- The items that a caller passes: a plain record with its entries, or anything else.
pub data Items (Input : Type 0) : Type 0 where
  plain_record : List (String × Input) → Items Input
  other_value : Items Input

-- zip of the entries and the ordered results, which have one length
abbrev pub zip : {A B : Type 0} → List A → List B → List (A × B)
zip [] bs = []
zip (a ∷ as') [] = []
zip (a ∷ as') (b ∷ bs) = (a, b) ∷ zip as' bs

-- out[key] = value on an object literal: under "__proto__" it sets the prototype, and no key of its own.
abbrev pub assign : {V : Type 0} → String → V → Map V → Map V
assign key value out = if key == "__proto__" then out else set key value out

abbrev keyed_dictionary_error : String → ConfigurationError
keyed_dictionary_error operation = record {
  operation = operation;
  key = none;
  cause = not_a_record;
}

module _ {World E : Type 0} (configuration_error : ConfigurationError → E) where
  module _ {Input Normalized : Type 0}
      (normalize_item : String → Input → ℕ → Effect World E Normalized) where
    -- Effect.forEach, one after the other, over the entries from an index on.
    unfoldable pub normalize_from :
        ℕ → List (String × Input) → Effect World E (List (KeyedEntry Normalized))
    unfolding and_then
    normalize_from index [] = succeed []
    normalize_from index ((key, input) ∷ items) =
        and_then (normalize_item key input index) (λ normalized.
          and_then (normalize_from (suc index) items) (λ entries.
            succeed (record { key = key; index = index; normalized = normalized } ∷ entries)))

    unfoldable pub normalize_keyed_record :
        String → Items Input → Effect World E (List (KeyedEntry Normalized))
    unfolding normalize_from
    normalize_keyed_record operation other_value =
        fail (configuration_error (keyed_dictionary_error operation))
    normalize_keyed_record operation (plain_record items) = normalize_from 0 items

  module _ {Ready RawResult PublicResult : Type 0}
      (to_public_result : KeyedEntry Ready → RawResult → Effect World E PublicResult) where
    -- The loop over the index, with `out` as it stands.
    unfoldable pub rekey_from :
        List (KeyedEntry Ready × RawResult) → Map PublicResult → Effect World E (Map PublicResult)
    unfolding and_then
    rekey_from [] out = succeed out
    rekey_from ((entry, raw) ∷ pairs) out =
        and_then (to_public_result entry raw)
          (λ result. rekey_from pairs (assign entry.key result out))

    unfoldable pub rekey_ordered_results :
        String → List (KeyedEntry Ready) → List RawResult → Effect World E (Map PublicResult)
    unfolding rekey_from
    rekey_ordered_results operation entries raw_results =
        if nat_eq (length raw_results) (length entries)
        then rekey_from (zip entries raw_results) []
        else fail (
            configuration_error (record {
              operation = operation;
              key = none;
              cause = expected_results (length entries) (length raw_results);
            }))

  module _ {Normalized : Type 0} (operation : String)
      (target : KeyedEntry Normalized → String) where
    -- `seen` maps a target to the key that has it.
    check_target : KeyedEntry Normalized → Option String → Effect World E Unit → Effect World E Unit
    check_target entry none rest = rest
    check_target entry (some duplicate) rest = fail (
        configuration_error (record {
          operation = operation;
          key = some entry.key;
          cause = duplicate_target (target entry) duplicate;
        }))

    unfoldable pub check_targets : Map String → List (KeyedEntry Normalized) → Effect World E Unit
    unfolding check_target
    check_targets seen [] = succeed tt
    check_targets seen (entry ∷ entries) =
        check_target entry (get (target entry) seen)
          (check_targets (set (target entry) entry.key seen) entries)

    unfoldable pub validate_unique_targets : List (KeyedEntry Normalized) → Effect World E Unit
    unfolding check_targets
    validate_unique_targets entries = check_targets [] entries

-- The specification of one operation. A part that may be left out is an option; `as_ready` is the
-- unchecked cast of the entries where there is no preflight.
pub record KeyedBatchSpec
    (World E Input Options Defaults EffectiveOptions Normalized Ready RawResult
      PublicResult : Type 0)
    : Type 0 where
  pub operation : String
  pub normalize_options : Options → Option Defaults → Effect World E EffectiveOptions
  pub normalize_item : String → Input → EffectiveOptions → Effect World E Normalized
  pub validate_items :
      Option (List (KeyedEntry Normalized) → EffectiveOptions → Effect World E Unit)
  pub preflight :
      Option
        (List (KeyedEntry Normalized) → EffectiveOptions → Effect World E (List (KeyedEntry Ready)))
  pub as_ready : List (KeyedEntry Normalized) → List (KeyedEntry Ready)
  pub execute : List (KeyedEntry Ready) → EffectiveOptions → Effect World E (List RawResult)
  pub to_public_result : KeyedEntry Ready → RawResult → Effect World E PublicResult

module _
    {World E Input Options Defaults EffectiveOptions Normalized Ready RawResult
      PublicResult : Type 0}
    (configuration_error : ConfigurationError → E)
    (spec : KeyedBatchSpec World E Input Options Defaults EffectiveOptions Normalized Ready
      RawResult PublicResult) where
  unfoldable pub validated : List (KeyedEntry Normalized) → EffectiveOptions → Effect World E Unit
  validated entries options = elim spec.validate_items [
    | none ↦ succeed tt
    | some validate ↦ validate entries options
  ]

  unfoldable pub ready_entries :
      List (KeyedEntry Normalized) → EffectiveOptions → Effect World E (List (KeyedEntry Ready))
  ready_entries entries options = elim spec.preflight [
    | none ↦ succeed (spec.as_ready entries)
    | some preflight ↦ preflight entries options
  ]

  -- From the check for no entries on.
  unfoldable pub run_entries :
      List (KeyedEntry Normalized) → EffectiveOptions → Effect World E (Map PublicResult)
  unfolding and_then rekey_ordered_results ready_entries
  run_entries [] options = succeed []
  run_entries (entry ∷ entries) options =
      and_then (ready_entries (entry ∷ entries) options) (λ ready.
        and_then (spec.execute ready options) (λ raw_results.
          rekey_ordered_results configuration_error spec.to_public_result spec.operation ready
            raw_results))

  unfoldable pub run_keyed_batch_operation :
      Items Input → Options → Option Defaults → Effect World E (Map PublicResult)
  unfolding and_then normalize_keyed_record validated run_entries
  run_keyed_batch_operation items options defaults =
      and_then (spec.normalize_options options defaults) (λ effective.
        and_then
          (normalize_keyed_record configuration_error
            (λ key input index. spec.normalize_item key input effective) spec.operation items)
          (λ entries. and_then (validated entries effective) (λ _. run_entries entries effective)))

-- ===== src/Client/Metadata/BuiltIn.antt =====
-- resolveBuiltInDataType of packages/client/src/internal/metadata/service.ts: up the hierarchy of data
-- types to one that is built in. `browse` is browseDataTypeSuperType, whose answers are taken not to
-- change during the call; the loop runs on fuel.
pub mod Resolved
use effect_opcua.Prelude.{
  ℕ, zero, suc, String, Option, none, some, List, [], Bool, ◌&&◌, nat_eq, leb, if◌then◌else◌,
}
use effect_opcua.Prelude.Sets.{has, add}
use effect_opcua.Client.Effect.{Exit, succeeded, failed}

-- A NodeId of node-opcua, with its toString(): its value is the number of a numeric one.
pub record NodeId : Type 0 where
  pub text : String
  pub namespace : ℕ
  pub numeric_value : Option ℕ

-- The numbers of node-opcua that the code names, and whether a number is a DataType.
pub record Numbers : Type 0 where
  pub enumeration : ℕ
  pub int32 : ℕ
  pub diagnostic_info : ℕ
  pub is_data_type : ℕ → Bool

-- The errors, with the node id that they name.
pub data ResolveError (Cause : Type 0) : Type 0 where
  hierarchy_cycle : String → String → ResolveError Cause
  unresolved : String → ResolveError Cause
  service_error : Cause → ResolveError Cause

module _ (numbers : Numbers) where
  number_built_in : ℕ → Option ℕ
  number_built_in value =
      if nat_eq value numbers.enumeration
      then some numbers.int32
      else if leb value numbers.diagnostic_info && numbers.is_data_type value
      then some value
      else none

  unfoldable pub built_in_data_type_from_node_id : NodeId → Option ℕ
  unfolding number_built_in
  built_in_data_type_from_node_id id = elim id.numeric_value [
    | none ↦ none
    | some value ↦ if nat_eq id.namespace 0 then number_built_in value else none
  ]

module _ {Cause : Type 0} (numbers : Numbers) (browse : NodeId → Exit Cause (Option NodeId))
    (data_type : NodeId) where
  abbrev pub Resolution : Type 0
  Resolution = Exit (ResolveError Cause) ℕ

  -- What follows the answer to the browse: `next` is the rest of the loop.
  unfoldable pub ascend :
      Exit Cause (Option NodeId) → (NodeId → Option Resolution) → Option Resolution
  ascend (failed cause) next = some (failed (service_error cause))
  ascend (succeeded none) next = some (failed (unresolved data_type.text))
  ascend (succeeded (some super_type)) next = next super_type

  unfoldable pub resolve_step :
      NodeId → Option ℕ → List String → (NodeId → Option Resolution) → Option Resolution
  unfolding ascend
  resolve_step current (some built_in) visited next = some (succeeded built_in)
  resolve_step current none visited next =
      if has current.text visited
      then some (failed (hierarchy_cycle data_type.text current.text))
      else ascend (browse current) next

  -- The loop; `none` means that the fuel ran out.
  unfoldable pub resolve_loop : ℕ → NodeId → List String → Option Resolution
  unfolding resolve_step built_in_data_type_from_node_id
  resolve_loop zero current visited = none
  resolve_loop (suc fuel) current visited =
      resolve_step current (built_in_data_type_from_node_id numbers current) visited
        (λ super_type. resolve_loop fuel super_type (add current.text visited))

  unfoldable pub resolve_built_in_data_type : ℕ → Option Resolution
  unfolding resolve_loop
  resolve_built_in_data_type fuel = resolve_loop fuel data_type []

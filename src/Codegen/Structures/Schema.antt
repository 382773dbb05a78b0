-- ===== src/Codegen/Structures/Schema.antt =====
-- fieldSchema of packages/codegen/src/compile/structures.ts: the schema of one field, with the issues
-- that it pushes.
use effect_opcua.Prelude.{
  String, Option, none, some, List, [], ◌∷◌, Bool, true, false, not, ◌&&◌, ◌||◌, ◌==◌,
  if◌then◌else◌,
}
use effect_opcua.Prelude.Sets.{has}
use effect_opcua.Prelude.Maps.{Map, get}
use effect_opcua.Prelude.Int.{ℤ, pos, eq_ℤ}
use effect_opcua.Prelude.Text.{◌<>◌}
use effect_opcua.Codegen.Issues.{Severity, Issue, issue, said, structure_unsupported_field}
use effect_opcua.Codegen.Types.{
  DataTypeDefinition, OpcuaStructure, StructureType, EnumDefinition, SchemaExpression, item,
  array_of, ItemSchema, scalar, enum_ref, structure_ref, unknown_schema, ScalarSchema, number,
}
use effect_opcua.Codegen.BuiltinTypes.{
  is_unsupported_array_rank, scalar_schema, is_dynamic_scalar_data_type,
}
use effect_opcua.Codegen.Enums.{text_of}
use effect_opcua.Codegen.Recursion.{has_key}

-- The tables that every call is given.
pub record Tables : Type 0 where
  pub definitions : Map DataTypeDefinition
  pub raw_structures : Map OpcuaStructure
  pub structure_names : Map String
  pub invalid_structures : List String
  pub enums : Map EnumDefinition
  pub invalid_enums : List String
  pub unsupported_severity : Severity

abbrev pub is_array_rank : Option ℤ → Bool
is_array_rank none = false
is_array_rank (some rank) = eq_ℤ rank (pos 1)

abbrev pub wrap_array : Option ℤ → ItemSchema → SchemaExpression
wrap_array rank schema = if is_array_rank rank then array_of schema else item schema

abbrev pub rank_text : Option ℤ → String
rank_text none = "undefined"
rank_text (some rank) = text_of rank

abbrev is_union : Option OpcuaStructure → Bool
is_union none = false
is_union (some s) = elim s.structure_type [ StructureType.union ↦ true | _ ↦ false ]

module _ (t : Tables) (owner field : String) (rank : Option ℤ) where
  unsupported : String → Issue
  unsupported text =
      issue structure_unsupported_field
        (record (said text) { severity = some t.unsupported_severity; node_id = some owner })

  -- The last tests, for a field that is neither a scalar, nor an enum, nor a valid structure.
  other_schema : SchemaExpression × List Issue
  unfolding unsupported
  other_schema =
      if is_dynamic_scalar_data_type (some field)
      then (
        wrap_array rank unknown_schema,
        unsupported ("Structure field references dynamic scalar DataType " <> field) ∷ [],
      )
      else if is_union (get field t.raw_structures) || has field t.invalid_structures
      then (
        item unknown_schema,
        unsupported ("Structure field references unsupported DataType " <> field) ∷ [],
      )
      else if has_key t.definitions field
      then (item unknown_schema, [])
      else (
        item unknown_schema,
        unsupported ("Structure field references DataType without definition " <> field) ∷ [],
      )

  -- `structureName && !invalidStructures.has(fieldNodeId)`
  structure_schema : Option String → SchemaExpression × List Issue
  unfolding other_schema
  structure_schema none = other_schema
  structure_schema (some name) =
      if not (name == "") && not (has field t.invalid_structures)
      then (wrap_array rank (structure_ref name), [])
      else other_schema

  enum_schema : Option EnumDefinition → SchemaExpression × List Issue
  unfolding structure_schema
  enum_schema (some e) = (wrap_array rank (enum_ref e.name), [])
  enum_schema none =
      if has field t.invalid_enums
      then (wrap_array rank (scalar number), [])
      else structure_schema (get field t.structure_names)

  scalar_or : Option ScalarSchema → SchemaExpression × List Issue
  unfolding enum_schema
  scalar_or (some s) = (wrap_array rank (scalar s), [])
  scalar_or none = enum_schema (get field t.enums)

  unfoldable pub field_schema : SchemaExpression × List Issue
  unfolding scalar_or unsupported text_of
  field_schema =
      if is_unsupported_array_rank rank
      then (
        item unknown_schema,
        unsupported ("Structure field has unsupported array rank " <> rank_text rank) ∷ [],
      )
      else scalar_or (scalar_schema (some field))

-- ===== src/Codegen/Structures/Emit.antt =====
-- The last loop of compileStructures in packages/codegen/src/compile/structures.ts, and the whole.
use mathlib.Core.List.{foldl}
use effect_opcua.Prelude.{
  ℕ, suc, String, Option, none, some, List, [], ◌∷◌, ◌++◌, Bool, false, get_elem?, if◌then◌else◌,
}
use effect_opcua.Prelude.Sets.{has}
use effect_opcua.Prelude.Maps.{Map, get, set}
use effect_opcua.Prelude.Groups.{items}
use effect_opcua.Prelude.Text.{◌<>◌}
use effect_opcua.Codegen.Issues.{Severity, Issue, issue, said, structure_recursive_field}
use effect_opcua.Codegen.Types.{
  OpcuaStructure, StructureField, StructureDefinition, StructureFieldDefinition, SchemaExpression,
  item, unknown_schema, TypeFallback,
}
use effect_opcua.Codegen.BuiltinTypes.{type_fallback_severity}
use effect_opcua.Codegen.Names.{node_opcua_field_name}
use effect_opcua.Codegen.Naming.{Definitions, structures, naming}
use effect_opcua.Codegen.Enums.{EnumGraph}
use effect_opcua.Codegen.Recursion.{recursive_structure_fields}
use effect_opcua.Codegen.Structures.{NamedFields, raw_structures, check_types, check_all_fields}
use effect_opcua.Codegen.Structures.Schema.{Tables, field_schema}

pub record StructureGraph : Type 0 where
  pub structures : Map StructureDefinition
  pub invalid_structures : List String
  pub issues : List Issue

-- fieldNames[index]! : there is a name for every field.
abbrev name_at : Option String → String
name_at none = ""
name_at (some name) = name

-- field.isOptional === true
abbrev is_true : Option Bool → Bool
is_true none = false
is_true (some b) = b

module _ (lower_case : String → String) (tables : Tables) (recursive : Map (List String)) where
  module _ (node_id name : String) where
    recursive_issue : String → String → Issue
    recursive_issue original field =
        issue structure_recursive_field
          (record (said ("Structure " <> (name <> (" has recursive field " <> original)))) {
            severity = some tables.unsupported_severity;
            node_id = some node_id;
            generated_path = some (name ∷ field ∷ []);
          })

    -- The schema of a field: a recursive one is not looked at further.
    unfoldable pub schema_of : StructureField → String → SchemaExpression × List Issue
    unfolding recursive_issue
    schema_of field field_name =
        if has field.data_type_node_id (items node_id recursive)
        then (item unknown_schema, recursive_issue field.name field_name ∷ [])
        else field_schema tables node_id field.data_type_node_id field.value_rank

    unfoldable pub emit_field : StructureField → String → StructureFieldDefinition
    emit_field field field_name = record {
      name = field_name;
      encoded_name = node_opcua_field_name lower_case field.name;
      original_name = field.name;
      schema = (schema_of field field_name).0;
      optional = is_true field.is_optional;
    }

    unfoldable pub emit_fields :
        List String → ℕ → List StructureField → List StructureFieldDefinition
    emit_fields names index [] = []
    emit_fields names index (field ∷ fields) =
        emit_field field (name_at (get_elem? names index)) ∷ emit_fields names (suc index) fields

    emit_issues : List String → ℕ → List StructureField → List Issue
    unfolding schema_of
    emit_issues names index [] = []
    emit_issues names index (field ∷ fields) =
        (schema_of field (name_at (get_elem? names index))).1
        ++ emit_issues names (suc index) fields

  -- One round over the structures; both look-ups succeed for a valid structure.
  unfoldable pub emit_named :
      StructureGraph
      → String
      → OpcuaStructure
      → Option String
      → Option (List String)
      → StructureGraph
  unfolding emit_fields emit_issues
  emit_named g id s (some name) (some field_names) = record g {
    structures =
        set id
          (record {
            name = name;
            data_type_node_id = id;
            browse_name = s.name;
            fields = emit_fields id name field_names 0 s.fields;
          })
          g.structures;
    issues = g.issues ++ emit_issues id name field_names 0 s.fields;
  }
  emit_named g id s _ _ = g

  unfoldable pub emit_structure :
      Map (List String) → StructureGraph → String × OpcuaStructure → StructureGraph
  unfolding emit_named
  emit_structure field_names g (id, s) =
      if has id g.invalid_structures
      then g
      else emit_named g id s (get id tables.structure_names) (get id field_names)

-- What the passes before the last hand to it.
unfoldable pub checked_fields : Severity → Definitions → NamedFields
unfolding check_types check_all_fields raw_structures naming
checked_fields severity definitions =
    let n = naming structures definitions in
    let raw = raw_structures definitions in
    check_all_fields n.names
      (check_types severity n.names (record { invalid = n.invalid; issues = n.issues }) raw) raw

unfoldable pub tables_for : Severity → Definitions → EnumGraph → Tables
unfolding checked_fields
tables_for severity definitions enums = record {
  definitions = definitions;
  raw_structures = raw_structures definitions;
  structure_names = (naming structures definitions).names;
  invalid_structures = (checked_fields severity definitions).checked.invalid;
  enums = enums.enums;
  invalid_enums = enums.invalid_enums;
  unsupported_severity = severity;
}

-- compileStructures
unfoldable pub compile_structures :
    (String → String) → TypeFallback → Definitions → EnumGraph → StructureGraph
unfolding checked_fields tables_for emit_structure recursive_structure_fields type_fallback_severity
compile_structures lower_case fallback definitions enums =
    let severity = type_fallback_severity fallback in
    let fields = checked_fields severity definitions in
    let raw = raw_structures definitions in
    foldl
      (emit_structure lower_case (tables_for severity definitions enums)
        (recursive_structure_fields raw) fields.valid_field_names)
      (record {
        structures = [];
        invalid_structures = fields.checked.invalid;
        issues = fields.checked.issues;
      })
      raw

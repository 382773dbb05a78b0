-- ===== src/Codegen/Structures.antt =====
-- packages/codegen/src/compile/structures.ts: the structures that are generated, and the schemas of
-- their fields. The naming passes are in Naming, recursive fields in Recursion.
pub mod Emit
pub mod Distinct
pub mod Acyclic
pub mod Schema
use mathlib.Core.List.{foldl}
use effect_opcua.Prelude.{
  ℕ, suc, ◌+◌, String, Option, none, some, List, [], ◌∷◌, ◌++◌, Bool, true, false, not,
  if◌then◌else◌,
}
use effect_opcua.Prelude.Sets.{has, add}
use effect_opcua.Prelude.Maps.{Map, get, set}
use effect_opcua.Prelude.Groups.{push}
use effect_opcua.Prelude.Text.{◌<>◌, decimal}
use effect_opcua.Codegen.Issues.{
  Severity, error, Issue, issue, said, candidates, datatype_union_unsupported,
  datatype_definition_unsupported, structure_field_empty_name, structure_field_name_collision,
}
use effect_opcua.Codegen.Types.{
  DataTypeDefinition, structure_definition, enum_definition, OpcuaStructure, StructureType,
  StructureField, union, unknown, structure,
}
use effect_opcua.Codegen.Names.{sanitize_camel}
use effect_opcua.Codegen.Naming.{Definitions}
use effect_opcua.Codegen.Enums.{find_collision}

-- What the loops have collected so far.
pub record Checked : Type 0 where
  pub invalid : List String
  pub issues : List Issue

-- `names.get(nodeId) ?? nodeId`
abbrev name_or_id : Option String → String → String
name_or_id none id = id
name_or_id (some name) id = name

raw_structure : Map OpcuaStructure → String × DataTypeDefinition → Map OpcuaStructure
raw_structure m (id, structure_definition s) = set id s m
raw_structure m (id, enum_definition e) = m

unfoldable pub raw_structures : Definitions → Map OpcuaStructure
unfolding raw_structure
raw_structures = foldl raw_structure []

module _ (severity : Severity) (names : Map String) where
  type_issue : String → String → StructureType → List Issue
  type_issue id name union =
      issue datatype_union_unsupported
        (record (said ("Union DataType " <> (name <> " is not generated"))) {
          severity = some severity;
          node_id = some id;
          generated_path = some (name ∷ []);
        })
      ∷ []
  type_issue id name unknown =
      issue datatype_definition_unsupported
        (record (said ("Structure DataType " <> (name <> " has unsupported structure type"))) {
          severity = some severity;
          node_id = some id;
          generated_path = some (name ∷ []);
        })
      ∷ []
  type_issue id name _ = []

  abbrev is_supported : StructureType → Bool
  is_supported union = false
  is_supported unknown = false
  is_supported _ = true

  -- One round of the loop over the structure types.
  check_type : Checked → String × OpcuaStructure → Checked
  unfolding type_issue
  check_type c (id, s) = record {
    invalid = if is_supported s.structure_type then c.invalid else add id c.invalid;
    issues = c.issues ++ type_issue id (name_or_id (get id names) id) s.structure_type;
  }

  unfoldable pub check_types : Checked → Map OpcuaStructure → Checked
  unfolding check_type
  check_types = foldl check_type

-- The collections of one round over the fields.
pub record FieldNames : Type 0 where
  pub groups : Map (List String)
  pub field_names : List String
  pub issues : List Issue

module _ (node_id name : String) where
  field_empty_issue : String → Issue
  field_empty_issue field =
      issue structure_field_empty_name
        (record (said ("Structure " <> (name <> " has a field without a usable generated name"))) {
          node_id = some node_id;
          generated_path = some (name ∷ field ∷ []);
        })

  add_field_name : FieldNames → String → String → List Issue → FieldNames
  add_field_name f field original more = record {
    groups = push field original f.groups;
    field_names = f.field_names ++ field ∷ [];
    issues = f.issues ++ more;
  }

  field_as : FieldNames → ℕ → String → Option String → FieldNames
  unfolding add_field_name field_empty_issue
  field_as f index original (some field) = add_field_name f field original []
  field_as f index original none =
      let field = "_field" <> decimal (index + 1) in
      add_field_name f field original (field_empty_issue field ∷ [])

  unfoldable pub name_fields : ℕ → List StructureField → FieldNames → FieldNames
  unfolding field_as decimal
  name_fields index [] f = f
  name_fields index (field ∷ fields) f =
      name_fields (suc index) fields (field_as f index field.name (sanitize_camel field.name))

  field_collision_issue : String × List String → Issue
  field_collision_issue (field, names) =
      issue structure_field_name_collision
        (record (said ("Structure " <> (name <> (" has colliding generated field " <> field)))) {
          severity = some error;
          node_id = some node_id;
          generated_path = some (name ∷ field ∷ []);
          cause = candidates names;
        })

-- The loop over the field names, with validFieldNames.
pub record NamedFields : Type 0 where
  pub checked : Checked
  pub valid_field_names : Map (List String)

settle_fields :
    NamedFields → String → String → FieldNames → Option (String × List String) → NamedFields
unfolding field_collision_issue
settle_fields n id name f (some collision) = record n {
  checked = record {
    invalid = add id n.checked.invalid;
    issues = (n.checked.issues ++ f.issues) ++ field_collision_issue id name collision ∷ [];
  };
}
settle_fields n id name f none = record {
  checked = record { invalid = n.checked.invalid; issues = n.checked.issues ++ f.issues };
  valid_field_names = set id f.field_names n.valid_field_names;
}

abbrev no_fields : FieldNames
no_fields = record { groups = []; field_names = []; issues = [] }

-- structureNames.get(nodeId)! : a structure without a name is invalid.
named_fields : NamedFields → String → OpcuaStructure → Option String → NamedFields
unfolding settle_fields name_fields find_collision
named_fields n id s none = n
named_fields n id s (some name) =
    let f = name_fields id name 0 s.fields no_fields in
    settle_fields n id name f (find_collision f.groups)

check_fields : Map String → NamedFields → String × OpcuaStructure → NamedFields
unfolding named_fields
check_fields names n (id, s) =
    if has id n.checked.invalid then n else named_fields n id s (get id names)

unfoldable pub check_all_fields : Map String → Checked → Map OpcuaStructure → NamedFields
unfolding check_fields
check_all_fields names c =
    foldl (check_fields names) (record { checked = c; valid_field_names = [] })

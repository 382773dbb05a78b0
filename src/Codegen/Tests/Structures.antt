-- ===== src/Codegen/Tests/Structures.antt =====
-- The structures of the plant, the recursive Motor and a Position.
use Prim.Native.String.{String}
use effect_opcua.Prelude.{none, some, List, [], ◌∷◌, false, ◌≡◌, refl, Memᴰ}
use effect_opcua.Prelude.Maps.{get, set}
use effect_opcua.Prelude.Sets.{has, add}
use effect_opcua.Codegen.Types.{
  StructureType, OpcuaStructure, DataTypeDefinition, structure_definition, enum_definition,
  dynamic_codec, StructureDefinition, item, scalar, number, enum_ref, unknown_schema,
}
use effect_opcua.Codegen.Names.{sanitize_pascal, sanitize_camel, node_opcua_field_name}
use effect_opcua.Prelude.Groups.{push}
use effect_opcua.Codegen.Recursion.{
  reaches, is_recursive, dependency_map, mark_structures, mark_fields, mark_field, structure_fields,
  some_reaches,
}
use effect_opcua.Codegen.Naming.{naming}
use effect_opcua.Codegen.Enums.{EnumGraph}
use effect_opcua.Codegen.Structures.Emit.{compile_structures, emit_field, schema_of}
use effect_opcua.Codegen.Structures.Distinct.{structure_names_distinct}
use effect_opcua.Codegen.Structures.Schema.{field_schema}
use effect_opcua.Codegen.BuiltinTypes.{scalar_schema, is_unsupported_array_rank}
use effect_opcua.Codegen.Structures.{raw_structures}
use effect_opcua.Codegen.Structures.Acyclic.{NeverReturns, references_never_return}
use effect_opcua.Codegen.Tests.{differ, motor, color, no_case, color_definition}

abbrev position : OpcuaStructure
position = record {
  name = "Position";
  structure_type = StructureType.structure;
  fields =
      record { name = "X"; data_type_node_id = "i=11"; value_rank = none; is_optional = none } ∷ [];
}

abbrev plant : List (String × DataTypeDefinition)
plant =
    ("ns=1;i=1", structure_definition motor)
    ∷ ("ns=1;i=7", structure_definition position)
    ∷ ("ns=1;i=2", enum_definition color)
    ∷ []

abbrev pub position_definition : StructureDefinition
position_definition = record {
  name = "Position";
  data_type_node_id = "ns=1;i=7";
  browse_name = "Position";
  fields =
      record {
        name = "x";
        encoded_name = "X";
        original_name = "X";
        schema = item (scalar number);
        optional = false;
      }
      ∷ [];
}

-- The field that leads back to the structure has lost its reference.
abbrev pub motor_definition : StructureDefinition
motor_definition = record {
  name = "MotorData";
  data_type_node_id = "ns=1;i=1";
  browse_name = "motor data";
  fields =
      record {
        name = "speed";
        encoded_name = "Speed";
        original_name = "Speed";
        schema = item (scalar number);
        optional = false;
      }
      ∷ record {
        name = "color";
        encoded_name = "Color";
        original_name = "Color";
        schema = item (enum_ref "Color");
        optional = false;
      }
      ∷ record {
        name = "next";
        encoded_name = "Next";
        original_name = "Next";
        schema = item unknown_schema;
        optional = false;
      }
      ∷ [];
}

abbrev plant_enums : EnumGraph
plant_enums = record {
  enums = ("ns=1;i=2", color_definition) ∷ [];
  invalid_enums = [];
  issues = [];
}

motor_emitted :
    get "ns=1;i=1" (compile_structures no_case dynamic_codec plant plant_enums).structures
    ≡ some motor_definition
unfolding compile_structures naming get sanitize_pascal push set has sanitize_camel emit_field
    node_opcua_field_name mark_structures mark_fields mark_field is_recursive reaches dependency_map
    structure_fields some_reaches field_schema scalar_schema schema_of add is_unsupported_array_rank
motor_emitted = refl

position_emitted :
    get "ns=1;i=7" (compile_structures no_case dynamic_codec plant plant_enums).structures
    ≡ some position_definition
unfolding compile_structures naming get sanitize_pascal push set has sanitize_camel emit_field
    node_opcua_field_name mark_structures mark_fields mark_field is_recursive reaches dependency_map
    structure_fields some_reaches field_schema scalar_schema schema_of add is_unsupported_array_rank
position_emitted = refl

structure_names_distinct_example : ¬ (motor_definition.name ≡ position_definition.name)
structure_names_distinct_example =
    structure_names_distinct no_case dynamic_codec plant plant_enums "ns=1;i=1" "ns=1;i=7"
      motor_definition position_definition motor_emitted position_emitted
      (differ "ns=1;i=1" "ns=1;i=7" refl)

references_never_return_example :
    (s : OpcuaStructure) × Memᴰ ("ns=1;i=1", s) (raw_structures plant)
    × NeverReturns (raw_structures plant) "ns=1;i=1" s.fields motor_definition.fields
references_never_return_example =
    references_never_return no_case dynamic_codec plant plant_enums "ns=1;i=1" motor_definition
      motor_emitted

-- ===== src/Codegen/Tests/Models.antt =====
-- The variables of the plant, their paths, and the whole compilation.
use Prim.Native.String.{String}
use effect_opcua.Prelude.{◌≡◌, none, some, List, [], ◌∷◌, true, false, refl, ◌⊎◌, Memᴰ}
use effect_opcua.Prelude.Maps.{get, set}
use effect_opcua.Codegen.Issues.{warning, issue, said, browse_failure}
use effect_opcua.Codegen.Types.{
  StructureDefinition, StructureFieldDefinition, array_of, structure_ref, SurfaceNode,
  dynamic_codec, schema_codec, read, number, VariableDefinition,
}
use effect_opcua.Prelude.Groups.{push, group_from}
use effect_opcua.Codegen.BuiltinTypes.{scalar_schema, is_unsupported_array_rank}
use effect_opcua.Codegen.Variables.{TypeGraph, compile_variables, variable_access, variable_codec}
use effect_opcua.Codegen.Variables.Permissions.{
  IsPublished, Given, LeftOut, compile_variables-IsPublished, compile_variables-Given,
}
use effect_opcua.Codegen.Assemble.{
  model_issues, generated_path_collision_issues, branch_leaf_collision_issues, branch_issues,
  by_path, reserved_data_types_collision_issues, sort_structures, visit_structures, visit, name_map,
}
use effect_opcua.Codegen.Assemble.Paths.{HasFreePaths, model_issues-HasFreePaths}
use effect_opcua.Codegen.Names.{path_key}
use effect_opcua.Codegen.Compile.{Platform, Discovery, compile}
use effect_opcua.Codegen.Compile.Fatal.{Consistent, compile-Consistent, compile-Reports, issues_of}
use effect_opcua.Codegen.Compile.Policy.{
  Justified, enforce_issue_policy, enforce_issue_policy-Justified,
}
use effect_opcua.Codegen.Assemble.Behind.{Leads}
use effect_opcua.Codegen.Assemble.Ordered.{sort_structures-IsBehind}
use effect_opcua.Prelude.Sets.{has, add}
use effect_opcua.Prelude.Sort.{sort}
use effect_opcua.Codegen.Assemble.Sorted.{names_of, mem-sort_structures}
use effect_opcua.Codegen.Tests.{results, variable_of, same_order, no_case}
use effect_opcua.Codegen.Tests.Structures.{motor_definition, position_definition}

abbrev no_types : TypeGraph
no_types = record {
  enums = [];
  structures = [];
  invalid_enums = [];
  invalid_structures = [];
  issues = [];
}

abbrev level : SurfaceNode
level = variable_of "Level" (some "i=11")

abbrev level_definition : VariableDefinition
level_definition = record {
  path = "Level" ∷ [];
  generated_path = "Level" ∷ [];
  node_id = "Level";
  codec = schema_codec number;
  access = read;
}

compile_variables-IsPublished_example :
    (n : SurfaceNode) × Memᴰ n (level ∷ []) × IsPublished n level_definition
unfolding compile_variables variable_access variable_codec scalar_schema is_unsupported_array_rank
    get
compile_variables-IsPublished_example =
    compile_variables-IsPublished warning no_types [] (level ∷ []) level_definition (Memᴰ.head refl)

-- Nobody may read or write it.
abbrev locked : SurfaceNode
locked = record level {
  node = record (level.node) {
    user_access_level = some (record { readable = false; writable = false });
  };
}

compile_variables-Given_example :
    Given locked (compile_variables warning no_types [] (level ∷ locked ∷ []))
    ⊎ LeftOut locked (compile_variables warning no_types [] (level ∷ locked ∷ []))
compile_variables-Given_example =
    compile_variables-Given warning no_types [] (level ∷ locked ∷ []) locked
      (Memᴰ.tail (Memᴰ.head refl))

abbrev whole_key : String → List String
whole_key k = k ∷ []

-- Motor.Speed and Motor2 stand beside each other.
abbrev placed : List VariableDefinition
placed =
    record level_definition { generated_path = "Motor" ∷ "Speed" ∷ [] }
    ∷ record level_definition { generated_path = "Motor2" ∷ [] }
    ∷ []

model_issues-HasFreePaths_example : HasFreePaths placed
unfolding model_issues path_key get generated_path_collision_issues group_from push set
    branch_leaf_collision_issues branch_issues by_path reserved_data_types_collision_issues
model_issues-HasFreePaths_example = model_issues-HasFreePaths whole_key placed no_types refl

abbrev platform : Platform
platform = record {
  locale_compare = same_order;
  text_le = λ a b. true;
  lower_case = no_case;
  split_key = whole_key;
  code_text = λ c. "";
}

abbrev discovery : Discovery
discovery = record {
  roots = record { root_index = 0; path = "Objects" ∷ []; export_prefix = none } ∷ [];
  nodes = level.node ∷ [];
  data_type_definitions = results;
  issues = issue browse_failure (said "Could not browse") ∷ [];
}

compile-Consistent_example : Consistent (compile platform dynamic_codec discovery)
compile-Consistent_example = compile-Consistent platform dynamic_codec discovery

compile-Reports_example :
    Memᴰ
      (issue browse_failure (said "Could not browse"))
      (issues_of (compile platform dynamic_codec discovery))
compile-Reports_example =
    compile-Reports platform dynamic_codec discovery
      (issue browse_failure (said "Could not browse")) (Memᴰ.head refl)

enforce_issue_policy-Justified_example :
    Justified platform true discovery.issues (enforce_issue_policy platform true discovery.issues)
enforce_issue_policy-Justified_example =
    enforce_issue_policy-Justified platform true discovery.issues

mem-sort_structures_example : Memᴰ "MotorData" (
    names_of
      (sort_structures same_order platform.text_le (position_definition ∷ motor_definition ∷ [])))
mem-sort_structures_example =
    mem-sort_structures same_order platform.text_le (position_definition ∷ motor_definition ∷ [])
      motor_definition (Memᴰ.tail (Memᴰ.head refl))

abbrev structure_of : String → List StructureFieldDefinition → StructureDefinition
structure_of name fields = record {
  name = name;
  data_type_node_id = name;
  browse_name = name;
  fields = fields;
}

abbrev field_of : String → StructureFieldDefinition
field_of name = record {
  name = "part";
  encoded_name = "Part";
  original_name = "Part";
  schema = array_of (structure_ref name);
  optional = false;
}

-- An Axle has Wheels, so the Wheel comes first.
abbrev axle : StructureDefinition
axle = structure_of "Axle" (field_of "Wheel" ∷ [])

abbrev wheel : StructureDefinition
wheel = structure_of "Wheel" []

wheel_first : sort_structures same_order platform.text_le (axle ∷ wheel ∷ []) ≡ wheel ∷ axle ∷ []
unfolding sort_structures visit_structures visit name_map get set has add sort
wheel_first = refl

sort_structures-IsBehind_example :
    Memᴰ {A = String} "Wheel" ("Wheel" ∷ []) ⊎ Leads (axle ∷ wheel ∷ []) "Wheel" "Axle"
sort_structures-IsBehind_example =
    sort_structures-IsBehind same_order platform.text_le (axle ∷ wheel ∷ []) (wheel ∷ []) [] axle
      wheel_first "Wheel" (Memᴰ.head refl) (Memᴰ.tail (Memᴰ.head refl))

-- ===== src/Codegen/Tests/Graphs.antt =====
-- The data types that the variables of the plant reach, and the recursive structures.
use Prim.Native.String.{String}
use effect_opcua.Prelude.{none, some, List, [], ◌∷◌, Bool, true, ◌≡◌, refl, ◌↔◌, Memᴰ, arith}
use effect_opcua.Prelude.Maps.{get}
use effect_opcua.Prelude.Sets.{has}
use effect_opcua.Codegen.Issues.{warning}
use effect_opcua.Codegen.Types.{OpcuaStructure, DataTypeDefinition, success, SurfaceNode}
use effect_opcua.Codegen.TypeGraph.{Walk, done, roots, reachable_definitions}
use effect_opcua.Codegen.TypeGraph.Correct.{Reached, reachable_definitions_correct}
use effect_opcua.Prelude.Groups.{items}
use effect_opcua.Codegen.Recursion.{
  reaches, has_key, is_recursive, dependency_map, recursive_structure_fields,
}
use effect_opcua.Codegen.Recursion.Walks.{Leads, here}
use effect_opcua.Codegen.Recursion.Decides.{reaches_decides}
use effect_opcua.Codegen.Recursion.Marks.{is_recursive_iff, has-recursive_structure_fields}
use effect_opcua.Codegen.Tests.{motor, results, variable_of}

abbrev variables : List SurfaceNode
variables = variable_of "Main" (some "ns=1;i=1") ∷ variable_of "Other" (some "ns=1;i=3") ∷ []

reachable_definitions_correct_example :
    (t : Walk) × (reachable_definitions warning variables results ≡ done t)
    × ((id : String) (d : DataTypeDefinition)
        → (get id t.definitions ≡ some d)
          ↔ (Reached results (roots variables) id × (get id results ≡ some (success d))))
reachable_definitions_correct_example = reachable_definitions_correct warning variables results

-- a and b lead to each other, c is not led to.
abbrev cycle : List (String × List String)
cycle = ("a", "b" ∷ []) ∷ ("b", "a" ∷ "d" ∷ []) ∷ ("d", []) ∷ ("c", "a" ∷ []) ∷ []

reaches_decides_example :
    (b : Bool) × (after : List String) × (reaches "c" cycle 5 "a" [] ≡ some (b, after))
    × ((b ≡ true) ↔ Leads cycle "a" "c")
reaches_decides_example = reaches_decides "c" cycle "a" 5 (omega arith)

abbrev structures_of_plant : List (String × OpcuaStructure)
structures_of_plant = ("ns=1;i=1", motor) ∷ []

is_recursive_iff_example : (is_recursive structures_of_plant "ns=1;i=1" "ns=1;i=1" ≡ true) ↔ (
    (has_key structures_of_plant "ns=1;i=1" ≡ true)
    × Leads (dependency_map structures_of_plant structures_of_plant) "ns=1;i=1" "ns=1;i=1")
is_recursive_iff_example = is_recursive_iff structures_of_plant "ns=1;i=1" "ns=1;i=1"

has-recursive_structure_fields_example :
    has "ns=1;i=1" (items "ns=1;i=1" (recursive_structure_fields structures_of_plant)) ≡ true
unfolding get
has-recursive_structure_fields_example =
    has-recursive_structure_fields structures_of_plant "ns=1;i=1" motor
      (record {
        name = "Next";
        data_type_node_id = "ns=1;i=1";
        value_rank = none;
        is_optional = none;
      })
      (Memᴰ.head refl) (Memᴰ.tail (Memᴰ.tail (Memᴰ.head refl))) refl here

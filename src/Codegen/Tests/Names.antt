-- ===== src/Codegen/Tests/Names.antt =====
-- Names of identifiers, of data types that are sanitised to one name, and of enums.
use Prim.Native.String.{String}
use mathlib.Core.List.{Nodup}
use effect_opcua.Prelude.{◌⊎◌, List, [], ◌∷◌, map, true, ◌≡◌, refl}
use effect_opcua.Prelude.Int.{pos}
use effect_opcua.Prelude.Maps.{get, set}
use effect_opcua.Prelude.Sets.{has}
use effect_opcua.Codegen.Types.{
  OpcuaEnum, DataTypeDefinition, enum_definition, EnumDefinition, EnumMember,
}
use effect_opcua.Codegen.Names.{sanitize_pascal}
use effect_opcua.Codegen.Names.Identifier.{IsIdentifier, sanitize_pascal-IsIdentifier}
use effect_opcua.Prelude.Groups.{push}
use effect_opcua.Codegen.Naming.{enums, naming}
use effect_opcua.Codegen.Naming.Distinct.{naming_collision}
use effect_opcua.Codegen.Enums.{compile_enums}
use effect_opcua.Codegen.Enums.Distinct.{enum_names_distinct}
use effect_opcua.Codegen.Tests.{differ, color, same_order, color_definition}

sanitize_pascal-IsIdentifier_example : IsIdentifier "_3Phase"
unfolding sanitize_pascal
sanitize_pascal-IsIdentifier_example = sanitize_pascal-IsIdentifier "3 phase" "_3Phase" refl

-- Two names that are sanitised to one, and an enum of its own.
abbrev modes : List (String × DataTypeDefinition)
modes =
    ("ns=1;i=4", enum_definition (record { name = "run mode"; fields = [] }))
    ∷ ("ns=1;i=5", enum_definition (record { name = "RunMode"; fields = [] }))
    ∷ []

naming_collision_example : has "ns=1;i=4" (naming enums modes).invalid ≡ true
unfolding naming get sanitize_pascal has push set
naming_collision_example =
    naming_collision enums modes "ns=1;i=4" "ns=1;i=5" "RunMode" refl refl
      (differ "ns=1;i=4" "ns=1;i=5" refl)

abbrev state : OpcuaEnum
state = record { name = "state"; fields = record { name = "on"; value = pos 1 } ∷ [] }

abbrev both_enums : List (String × DataTypeDefinition)
both_enums = ("ns=1;i=2", enum_definition color) ∷ ("ns=1;i=6", enum_definition state) ∷ []

abbrev state_definition : EnumDefinition
state_definition = record {
  name = "State";
  data_type_node_id = "ns=1;i=6";
  browse_name = "state";
  members = record { name = "On"; value = pos 1 } ∷ [];
}

enum_names_distinct_example :
    Nodup (map (λ (m : EnumMember). m.name) color_definition.members)
    × ((◌≡◌ {A = String} "ns=1;i=2" "ns=1;i=6") ⊎ ¬ (color_definition.name ≡ state_definition.name))
unfolding compile_enums naming get sanitize_pascal push set has
enum_names_distinct_example =
    enum_names_distinct same_order both_enums "ns=1;i=2" "ns=1;i=6" color_definition
      state_definition refl refl

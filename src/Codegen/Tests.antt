-- ===== src/Codegen/Tests.antt =====
-- The theorems on a small model of a plant: a Motor structure with a Color enum, and variables.
pub mod Graphs
pub mod Names
pub mod Structures
pub mod Models
use Prim.Native.Nat.{Ordering}
use Prim.Native.String.{String}
use effect_opcua.Prelude.{
  Option, none, some, List, [], ◌∷◌, true, false, ◌≡◌, sym, ◌∙◌, ◌==◌, eq_iff,
}
use effect_opcua.Prelude.Int.{pos}
use effect_opcua.Codegen.Types.{
  StructureType, OpcuaStructure, OpcuaEnum, structure_definition, enum_definition, DefinitionResult,
  success, missing, SurfaceNode, NodeClass, EnumDefinition,
}
use mathlib.Core.Bool.{false≢true}

pub differ : (a b : String) → (a == b) ≡ false → ¬ (a ≡ b)
differ a b h e = false≢true (sym h ∙ (eq_iff a b).1 e)

abbrev pub motor : OpcuaStructure
motor = record {
  name = "motor data";
  structure_type = StructureType.structure;
  fields =
      record { name = "Speed"; data_type_node_id = "i=11"; value_rank = none; is_optional = none }
      ∷ record {
        name = "Color";
        data_type_node_id = "ns=1;i=2";
        value_rank = none;
        is_optional = none;
      }
      ∷ record {
        name = "Next";
        data_type_node_id = "ns=1;i=1";
        value_rank = none;
        is_optional = none;
      }
      ∷ [];
}

abbrev pub color : OpcuaEnum
color = record {
  name = "Color";
  fields = record { name = "red"; value = pos 1 } ∷ record { name = "green"; value = pos 0 } ∷ [];
}

abbrev pub results : List (String × DefinitionResult)
results =
    ("ns=1;i=1", success (structure_definition motor))
    ∷ ("ns=1;i=2", success (enum_definition color))
    ∷ ("ns=1;i=3", missing "no attribute")
    ∷ []

abbrev pub variable_of : String → Option String → SurfaceNode
variable_of name data_type = record {
  node = record {
    node_id = name;
    path = "Objects" ∷ name ∷ [];
    node_class = NodeClass.variable;
    data_type_node_id = data_type;
    value_rank = none;
    access_level = some (record { readable = true; writable = false });
    user_access_level = none;
    root_index = some 0;
  };
  path = name ∷ [];
  generated_path = name ∷ [];
}

abbrev pub same_order : String → String → Ordering
same_order a b = Ordering.eq

abbrev pub no_case : String → String
no_case s = s

abbrev pub color_definition : EnumDefinition
color_definition = record {
  name = "Color";
  data_type_node_id = "ns=1;i=2";
  browse_name = "Color";
  members = record { name = "Green"; value = pos 0 } ∷ record { name = "Red"; value = pos 1 } ∷ [];
}

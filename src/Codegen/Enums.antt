-- ===== src/Codegen/Enums.antt =====
-- packages/codegen/src/compile/enums.ts: the enums that are generated. The shared naming passes are
-- in Naming; here is the loop over the valid enums.
pub mod Fields
pub mod Distinct
use mathlib.Core.List.{foldl}
use Prim.Native.Nat.{Ordering}
use effect_opcua.Prelude.{
  suc, String, Option, none, some, List, [], ◌∷◌, ◌++◌, Bool, true, false, length, ltb,
  if◌then◌else◌,
}
use effect_opcua.Prelude.Sets.{has, add}
use effect_opcua.Prelude.Maps.{Map, set}
use effect_opcua.Prelude.Groups.{push}
use effect_opcua.Prelude.Int.{ℤ, pos, negsuc, leb_ℤ, eq_ℤ}
use effect_opcua.Prelude.Sort.{sort}
use effect_opcua.Prelude.Text.{◌<>◌, decimal}
use effect_opcua.Codegen.Issues.{
  Issue, error, issue, said, candidates, enum_member_empty_name, enum_member_name_collision,
}
use effect_opcua.Codegen.Types.{
  DataTypeDefinition, structure_definition, enum_definition, OpcuaEnum, EnumField, EnumMember,
  EnumDefinition,
}
use effect_opcua.Codegen.Names.{sanitize_pascal}
use effect_opcua.Codegen.Naming.{enums, Naming, Definitions, naming}

-- The text of a number in a template.
unfoldable pub text_of : ℤ → String
unfolding decimal
text_of (pos n) = decimal n
text_of (negsuc n) = "-" <> decimal (suc n)

-- The collections of one round over the fields.
pub record Members : Type 0 where
  pub groups : Map (List String)
  pub members : List EnumMember
  pub issues : List Issue

-- The first group with more than one candidate.
unfoldable pub find_collision : Map (List String) → Option (String × List String)
find_collision [] = none
find_collision ((name, names) ∷ groups) =
    if ltb 1 (length names) then some (name, names) else find_collision groups

pub record EnumGraph : Type 0 where
  pub enums : Map EnumDefinition
  pub invalid_enums : List String
  pub issues : List Issue

module _ (node_id : String) where
  empty_member_issue : EnumField → Issue
  empty_member_issue field =
      issue enum_member_empty_name
        (record (said
          ("Enum member for value " <> (text_of field.value <> " has no usable generated name"))) {
            node_id = some node_id;
          })

  add_member : Members → String → EnumField → List Issue → Members
  add_member m name field more = record {
    groups = push name field.name m.groups;
    members = m.members ++ record { name = name; value = field.value } ∷ [];
    issues = m.issues ++ more;
  }

  member_as : Members → EnumField → Option String → Members
  unfolding add_member empty_member_issue text_of
  member_as m field (some name) = add_member m name field []
  member_as m field none =
      add_member m ("_Value" <> text_of field.value) field (empty_member_issue field ∷ [])

  -- One round over the fields of an enum.
  add_field : Members → EnumField → Members
  unfolding member_as
  add_field m field = member_as m field (sanitize_pascal field.name)

  unfoldable pub enum_members : List EnumField → Members
  unfolding add_field
  enum_members = foldl add_field (record { groups = []; members = []; issues = [] })

  member_collision_issue : String → String × List String → Issue
  member_collision_issue name (member, names) =
      issue enum_member_name_collision
        (record (said ("Enum " <> (name <> (" has colliding generated member " <> member)))) {
          severity = some error;
          node_id = some node_id;
          generated_path = some (name ∷ member ∷ []);
          cause = candidates names;
        })

abbrev pub enums_start : Naming → EnumGraph
enums_start n = record { enums = []; invalid_enums = n.invalid; issues = n.issues }

module _ (locale_compare : String → String → Ordering) where
  -- left.value - right.value || left.name.localeCompare(right.name), not positive
  abbrev pub member_le : EnumMember → EnumMember → Bool
  member_le left right =
      if eq_ℤ left.value right.value
      then elim (locale_compare left.name right.name) [ Ordering.gt ↦ false | _ ↦ true ]
      else leb_ℤ left.value right.value

  module _ (node_id : String) where
    settle_enum :
        EnumGraph → String → OpcuaEnum → Members → Option (String × List String) → EnumGraph
    unfolding member_collision_issue sort
    settle_enum g name e m (some collision) = record g {
      invalid_enums = add node_id g.invalid_enums;
      issues = (g.issues ++ m.issues) ++ member_collision_issue node_id name collision ∷ [];
    }
    settle_enum g name e m none = record g {
      enums =
          set node_id
            (record {
              name = name;
              data_type_node_id = node_id;
              browse_name = e.name;
              members = sort member_le m.members;
            })
            g.enums;
      issues = g.issues ++ m.issues;
    }

    -- sanitizePascal(definition.name)! : the naming pass makes an enum without a name invalid.
    named_enum : EnumGraph → OpcuaEnum → Option String → EnumGraph
    unfolding settle_enum enum_members find_collision
    named_enum g e none = g
    named_enum g e (some name) =
        let m = enum_members node_id e.fields in settle_enum g name e m (find_collision m.groups)

  -- One round of the last loop.
  compile_enum : EnumGraph → String → DataTypeDefinition → EnumGraph
  unfolding named_enum
  compile_enum g id (structure_definition s) = g
  compile_enum g id (enum_definition e) =
      if has id g.invalid_enums then g else named_enum id g e (sanitize_pascal e.name)

  compile_entry : EnumGraph → String × DataTypeDefinition → EnumGraph
  unfolding compile_enum
  compile_entry g (id, definition) = compile_enum g id definition

  unfoldable pub compile_enums : Definitions → EnumGraph
  unfolding compile_entry naming
  compile_enums definitions =
      foldl compile_entry (enums_start (naming enums definitions)) definitions

-- ===== src/Codegen/Naming.antt =====
-- packages/codegen/src/compile/enums.ts and structures.ts, the passes that both make first: each
-- definition of a kind gets a generated name, and names that several data types generate make all
-- of them invalid.
pub mod Distinct
use mathlib.Core.List.{foldl}
use effect_opcua.Prelude.{
  String, Option, none, some, List, [], ◌∷◌, ◌++◌, length, ltb, if◌then◌else◌,
}
use effect_opcua.Prelude.Sets.{add}
use effect_opcua.Prelude.Maps.{Map, set}
use effect_opcua.Prelude.Groups.{push}
use effect_opcua.Prelude.Text.{◌<>◌}
use effect_opcua.Codegen.Issues.{
  Issue, IssueCode, error, issue, said, candidates, enum_empty_name, enum_name_collision,
  structure_empty_name, structure_name_collision,
}
use effect_opcua.Codegen.Types.{DataTypeDefinition, structure_definition, enum_definition}
use effect_opcua.Codegen.Names.{sanitize_pascal}

pub data Kind : Type 0 where
  enums structures : Kind

abbrev pub Definitions : Type 0
Definitions = Map DataTypeDefinition

-- The `_tag` test of the loops, with the definition's name.
abbrev pub raw_name : Kind → DataTypeDefinition → Option String
raw_name enums (enum_definition e) = some e.name
raw_name structures (structure_definition s) = some s.name
raw_name _ _ = none

abbrev empty_name : Kind → IssueCode
empty_name enums = enum_empty_name
empty_name structures = structure_empty_name

abbrev name_collision : Kind → IssueCode
name_collision enums = enum_name_collision
name_collision structures = structure_name_collision

abbrev title : Kind → String
title enums = "Enum "
title structures = "Structure "

abbrev noun : Kind → String
noun enums = "enum"
noun structures = "structure"

-- The collections that the loops fill; `names` is structureNames.
pub record Naming : Type 0 where
  pub names : Map String
  pub groups : Map (List String)
  pub invalid : List String
  pub issues : List Issue

abbrev pub add_all : List String → List String → List String
add_all [] invalid = invalid
add_all (id ∷ ids) invalid = add_all ids (add id invalid)

abbrev pub unnamed : Naming
unnamed = record { names = []; groups = []; invalid = []; issues = [] }

module _ (kind : Kind) where
  empty_name_issue : String → Issue
  empty_name_issue id =
      issue (empty_name kind)
        (record (said (title kind <> (id <> " has no usable generated name"))) {
          severity = some error;
          node_id = some id;
        })

  collision_issue : String → List String → Issue
  collision_issue name ids =
      issue (name_collision kind)
        (record (said ("Multiple " <> (noun kind <> (" DataTypes generate " <> name)))) {
          severity = some error;
          generated_path = some (name ∷ []);
          cause = candidates ids;
        })

  name_as : String → Option String → Naming → Naming
  unfolding empty_name_issue
  name_as id none n = record n {
    invalid = add id n.invalid;
    issues = n.issues ++ empty_name_issue id ∷ [];
  }
  name_as id (some name) n = record n {
    names = set id name n.names;
    groups = push name id n.groups;
  }

  name_raw : String → Option String → Naming → Naming
  unfolding name_as
  name_raw id none n = n
  name_raw id (some raw) n = name_as id (sanitize_pascal raw) n

  -- One round of the first loop.
  pub name_definition : Naming → String × DataTypeDefinition → Naming
  unfolding name_raw
  name_definition n (id, definition) = name_raw id (raw_name kind definition) n

  -- One round of the second loop.
  reject_group : Naming → String × List String → Naming
  unfolding collision_issue
  reject_group n (name, ids) =
      if ltb 1 (length ids)
      then record n {
        invalid = add_all ids n.invalid;
        issues = n.issues ++ collision_issue name ids ∷ [];
      }
      else n

  unfoldable pub name_definitions : Definitions → Naming
  unfolding name_definition
  name_definitions = foldl name_definition unnamed

  unfoldable pub reject_groups : Naming → Naming
  unfolding reject_group
  reject_groups n = foldl reject_group n n.groups

  unfoldable pub naming : Definitions → Naming
  unfolding name_definitions reject_groups
  naming definitions = reject_groups (name_definitions definitions)

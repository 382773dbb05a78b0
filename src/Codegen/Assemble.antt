-- ===== src/Codegen/Assemble.antt =====
-- packages/codegen/src/compile/model.ts: collisions among the generated paths, and the model.
pub mod Paths
pub mod Behind
pub mod NameMap
pub mod Ordered
pub mod Sorted
use Prim.Native.Nat.{Ordering}
use effect_opcua.Prelude.{
  ℕ, zero, suc, ◌-◌, String, Option, none, some, List, [], ◌∷◌, ◌++◌, map, flat_map, length, take,
  Bool, true, false, not, ◌&&◌, ◌||◌, ◌==◌, ltb, if◌then◌else◌,
}
use effect_opcua.Prelude.Sets.{has, add}
use effect_opcua.Prelude.Maps.{Map, get, set}
use effect_opcua.Prelude.Groups.{group_from}
use effect_opcua.Prelude.Sort.{sort}
use effect_opcua.Codegen.Issues.{
  Issue, error_issue, said, candidates, path_generated_path_collision, path_branch_leaf_collision,
  path_top_level_export_collision,
}
use effect_opcua.Codegen.Types.{
  VariableDefinition, EnumDefinition, StructureDefinition, StructureFieldDefinition,
  SchemaExpression, item, array_of, structure_ref, CodegenModel, DataTypeNodeIdDefinition,
}
use effect_opcua.Codegen.Names.{path_key, display_path}
use effect_opcua.Codegen.Names.Surface.{locale_le}
use effect_opcua.Codegen.Variables.{TypeGraph}

-- `split_key` is key.split("."), which only the issue shows.
module _ (split_key : String → List String) where
  path_collision : String × List String → List Issue
  path_collision (key, paths) =
      if ltb 1 (length paths)
      then error_issue path_generated_path_collision
          (record (said "Two variables generate the same TypeScript path") {
            generated_path = some (split_key key);
            cause = candidates paths;
          })
        ∷ []
      else []

  abbrev pub keyed_paths : List VariableDefinition → List (String × String)
  keyed_paths = map (λ (v : VariableDefinition). (path_key v.generated_path, display_path v.path))

  unfoldable pub generated_path_collision_issues : List VariableDefinition → List Issue
  unfolding path_collision
  generated_path_collision_issues variables =
      flat_map path_collision (group_from [] (keyed_paths variables))

-- new Map(variables.map((variable) => [pathKey(variable.generatedPath), variable]))
unfoldable pub by_path : List VariableDefinition → Map VariableDefinition → Map VariableDefinition
by_path [] m = m
by_path (v ∷ vs) m = by_path vs (set (path_key v.generated_path) v m)

branch_issue : VariableDefinition → List String → Option VariableDefinition → List Issue
branch_issue v prefix none = []
branch_issue v prefix (some parent) =
    error_issue path_branch_leaf_collision
      (record (said "A generated variable path is both a leaf variable and an object branch") {
        generated_path = some prefix;
        cause = candidates (display_path parent.path ∷ display_path v.path ∷ []);
      })
    ∷ []

-- The loop over the proper prefixes: `rounds` of them are left, from `index` on.
unfoldable pub branch_issues : Map VariableDefinition → VariableDefinition → ℕ → ℕ → List Issue
unfolding branch_issue
branch_issues m v index zero = []
branch_issues m v index (suc rounds) =
    branch_issue v (take index v.generated_path) (get (path_key (take index v.generated_path)) m)
    ++ branch_issues m v (suc index) rounds

unfoldable pub branch_leaf_collision_issues : List VariableDefinition → List Issue
branch_leaf_collision_issues variables =
    flat_map
      (λ (v : VariableDefinition).
        branch_issues (by_path variables []) v 1 (length v.generated_path - 1))
      variables

abbrev is_data_types : List String → Bool
is_data_types [] = false
is_data_types (s ∷ _) = s == "DataTypes"

abbrev is_empty {ℓ} : {A : Type ℓ} → List A → Bool
is_empty [] = true
is_empty (_ ∷ _) = false

some_data_types : List VariableDefinition → Bool
some_data_types [] = false
some_data_types (v ∷ vs) = if is_data_types v.generated_path then true else some_data_types vs

unfoldable pub reserved_data_types_collision_issues :
    List VariableDefinition → TypeGraph → List Issue
unfolding some_data_types
reserved_data_types_collision_issues variables graph =
    if not (some_data_types variables) || is_empty graph.enums && is_empty graph.structures
    then []
    else error_issue path_top_level_export_collision
        (record (said
          "A top-level browse path sanitizes to reserved generated group \"DataTypes\"") {
            generated_path = some ("DataTypes" ∷ []);
          })
      ∷ []

unfoldable pub model_issues :
    (String → List String) → List VariableDefinition → TypeGraph → List Issue
model_issues split_key variables graph =
    generated_path_collision_issues split_key variables
    ++ (branch_leaf_collision_issues variables
        ++ reserved_data_types_collision_issues variables graph)

abbrev pub values {ℓ} : {V : Type ℓ} → Map V → List V
values = map (λ e. e.1)

-- schemaStructureDependencies
abbrev pub schema_dependencies : SchemaExpression → List String
schema_dependencies (item (structure_ref name)) = name ∷ []
schema_dependencies (array_of (structure_ref name)) = name ∷ []
schema_dependencies _ = []

abbrev pub structure_dependencies : StructureDefinition → List String
structure_dependencies s =
    flat_map (λ (f : StructureFieldDefinition). schema_dependencies f.schema) s.fields

-- The variables of sortStructures that `visit` changes.
pub record Visited : Type 0 where
  pub sorted : List StructureDefinition
  pub seen : List String

-- `text_le` is the order of dependencies.sort(); `none` means that the fuel ran out.
module _ (text_le : String → String → Bool) (by_name : Map StructureDefinition) where
  visit_all :
      (StructureDefinition → Visited → Option Visited) → List String → Visited → Option Visited
  visit_all visit [] v = some v
  visit_all visit (name ∷ names) v = elim (get name by_name) [
    | none ↦ visit_all visit names v
    | some target ↦ elim (visit target v) [ none ↦ none | some v' ↦ visit_all visit names v' ]
  ]

  unfoldable pub visit : ℕ → StructureDefinition → Visited → Option Visited
  unfolding visit_all sort
  visit zero s v = none
  visit (suc fuel) s v =
      if has s.name v.seen
      then some v
      else elim (visit_all (visit fuel) (sort text_le (structure_dependencies s))
          (record v { seen = add s.name v.seen })) [
            | none ↦ none
            | some v' ↦ some (record v' { sorted = v'.sorted ++ s ∷ [] })
          ]

  unfoldable pub visit_structures : ℕ → List StructureDefinition → Visited → Option Visited
  unfolding visit
  visit_structures fuel [] v = some v
  visit_structures fuel (s ∷ structures) v = elim (visit fuel s v) [
    | none ↦ none
    | some v' ↦ visit_structures fuel structures v'
  ]

-- new Map(structures.map((structure) => [structure.name, structure]))
unfoldable pub name_map :
    List StructureDefinition → Map StructureDefinition → Map StructureDefinition
name_map [] m = m
name_map (s ∷ rest) m = name_map rest (set s.name s m)

abbrev sorted_of : Option Visited → List StructureDefinition
sorted_of none = []
sorted_of (some v) = v.sorted

module _ (locale_compare : String → String → Ordering) (text_le : String → String → Bool) where
  unfoldable pub sort_structures : List StructureDefinition → List StructureDefinition
  unfolding visit_structures name_map sort
  sort_structures structures = sorted_of (
      visit_structures text_le (name_map structures []) (suc (length structures))
        (sort (λ a b. locale_le locale_compare a.name b.name) structures)
        (record { sorted = []; seen = [] }))

  unfoldable pub data_type_node_id_definitions : TypeGraph → List DataTypeNodeIdDefinition
  unfolding sort
  data_type_node_id_definitions graph =
      sort (λ a b. locale_le locale_compare a.name b.name)
        (map (λ (e : EnumDefinition). record { node_id = e.data_type_node_id; name = e.name })
            (values graph.enums)
          ++ map
              (λ (s : StructureDefinition). record { node_id = s.data_type_node_id; name = s.name })
              (values graph.structures))

  unfoldable pub assemble_model : List VariableDefinition → TypeGraph → List Issue → CodegenModel
  unfolding data_type_node_id_definitions sort_structures path_key sort
  assemble_model variables graph issues = record {
    node_ids =
        map
          (λ (v : VariableDefinition). record {
            node_id = v.node_id;
            path = v.path;
            generated_path = v.generated_path;
          })
          variables;
    data_type_node_ids = data_type_node_id_definitions graph;
    variables =
        sort
          (λ a b. locale_le locale_compare (path_key a.generated_path) (path_key b.generated_path))
          variables;
    enums = sort (λ a b. locale_le locale_compare a.name b.name) (values graph.enums);
    structures = sort_structures (values graph.structures);
    issues = issues;
  }

-- ===== src/Codegen/Recursion.antt =====
-- recursiveStructureFields and reaches of packages/codegen/src/compile/structures.ts: the fields of a
-- structure from which the structure is reached again. `reaches` shares one `seen` set among all its
-- calls, so the set is passed on; `none` is the model's own and means that the fuel ran out.
pub mod Walks
pub mod Decides
pub mod Marks
use effect_opcua.Prelude.{
  ℕ, zero, suc, String, Option, none, some, List, [], ◌∷◌, map, filter, Bool, true, false, ◌==◌,
  length, if◌then◌else◌,
}
use effect_opcua.Prelude.Sets.{has, add}
use effect_opcua.Prelude.Maps.{Map, get, set}
use effect_opcua.Prelude.Groups.{or_empty, items}
use effect_opcua.Codegen.Types.{OpcuaStructure, StructureField}

-- The answer and the `seen` set after the call.
abbrev pub Answer : Type 0
Answer = Option (Bool × List String)

-- Array.prototype.some: the first `true` ends the loop.
unfoldable pub some_reaches : (String → List String → Answer) → List String → List String → Answer
some_reaches visit [] seen = some (false, seen)
some_reaches visit (next ∷ rest) seen = elim (visit next seen) [
  | none ↦ none
  | some (true, after) ↦ some (true, after)
  | some (false, after) ↦ some_reaches visit rest after
]

module _ (target : String) (dependencies : Map (List String)) where
  unfoldable pub reaches : ℕ → String → List String → Answer
  unfolding some_reaches
  reaches zero current seen = none
  reaches (suc fuel) current seen =
      if current == target
      then some (true, seen)
      else if has current seen
      then some (false, seen)
      else some_reaches (reaches fuel) (or_empty (get current dependencies)) (add current seen)

-- structures.has(id)
abbrev pub has_key {ℓ} : {V : Type ℓ} → Map V → String → Bool
has_key m k = elim (get k m) [ none ↦ false | some _ ↦ true ]

module _ (structures : Map OpcuaStructure) where
  unfoldable pub structure_fields : OpcuaStructure → List String
  unfolding get
  structure_fields s =
      filter (has_key structures) (map (λ (f : StructureField). f.data_type_node_id) s.fields)

  -- The dependencies of every structure: its fields' data types that are structures too.
  unfoldable pub dependency_map : Map OpcuaStructure → Map (List String)
  unfolding structure_fields
  dependency_map [] = []
  dependency_map ((id, s) ∷ rest) = (id, structure_fields s) ∷ dependency_map rest

  -- structures.has(field) && reaches(field, owner, dependencies, new Set())
  unfoldable pub is_recursive : String → String → Bool
  is_recursive owner field =
      let dependencies = dependency_map structures in
      if has_key structures field
      then elim (reaches owner dependencies (suc (length dependencies)) field []) [
        | none ↦ false
        | some (found, _) ↦ found
      ]
      else false

  unfoldable pub mark_field : String → Map (List String) → String → Map (List String)
  mark_field owner result field =
      if is_recursive owner field then set owner (add field (items owner result)) result else result

  unfoldable pub mark_fields : String → List StructureField → Map (List String) → Map (List String)
  mark_fields owner [] result = result
  mark_fields owner (f ∷ fields) result =
      mark_fields owner fields (mark_field owner result f.data_type_node_id)

  unfoldable pub mark_structures : Map OpcuaStructure → Map (List String) → Map (List String)
  mark_structures [] result = result
  mark_structures ((id, s) ∷ rest) result = mark_structures rest (mark_fields id s.fields result)

  -- recursiveStructureFields
  unfoldable pub recursive_structure_fields : Map (List String)
  recursive_structure_fields = mark_structures structures []

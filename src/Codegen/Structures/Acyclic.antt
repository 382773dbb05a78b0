-- ===== src/Codegen/Structures/Acyclic.antt =====
-- The generated structures do not refer to one another in a cycle.
use mathlib.Core.Bool.{false≢true}
use effect_opcua.Prelude.{
  ℕ, suc, String, none, some, List, [], ◌∷◌, Bool, true, false, ◌≡◌, refl, sym, ap, subst, ◌∙◌, ◌⊎◌,
  inl, inr, Memᴰ, mem-nil, Bool-cases, arith,
}
use effect_opcua.Prelude.Maps.{Map, get, get_of_mem}
use effect_opcua.Prelude.Groups.{or_empty}
use effect_opcua.Codegen.Types.{
  OpcuaStructure, StructureField, StructureDefinition, StructureFieldDefinition, SchemaExpression,
  item, array_of, structure_ref, TypeFallback,
}
use effect_opcua.Codegen.Naming.{Definitions}
use effect_opcua.Codegen.Enums.{EnumGraph}
use effect_opcua.Codegen.Recursion.{has_key, dependency_map, recursive_structure_fields}
use effect_opcua.Codegen.Recursion.Walks.{Leads, here, step}
use effect_opcua.Codegen.Recursion.Marks.{has-recursive_structure_fields}
use effect_opcua.Codegen.Structures.{raw_structures}
use effect_opcua.Codegen.Structures.Schema.{Tables}
use effect_opcua.Codegen.Structures.Emit.{schema_of, emit_field, emit_fields, compile_structures}
use effect_opcua.Codegen.Structures.Distinct.{all-Emitted}

-- A schema that names another generated structure.
abbrev pub refers : SchemaExpression → Bool
refers (item (structure_ref _)) = true
refers (array_of (structure_ref _)) = true
refers _ = false

module _ (structures : Map OpcuaStructure) where
  abbrev pub links : Map (List String)
  unfolding dependency_map
  links = dependency_map structures structures

  get-dependency_map :
      (k : String) (rest : Map OpcuaStructure)
      → has_key rest k ≡ false
      → get k (dependency_map structures rest) ≡ none
  unfolding dependency_map get
  get-dependency_map k [] h = refl
  get-dependency_map k ((id, s) ∷ rest) h = ground (arith, get-dependency_map k rest)

  -- From an id that is no structure no walk leads to another id.
  no_walk :
      {a b : String}
      → Leads (dependency_map structures structures) a b
      → has_key structures a ≡ false
      → a ≡ b
  no_walk here h = refl
  no_walk {a} {b} (step m walk) h =
      absurd (mem-nil (subst (Memᴰ _) (ap or_empty (get-dependency_map a structures h)) m))

  -- Elementwise: the emitted field refers to no structure, or the data type of the source's field
  -- does not lead back to `owner`.
  abbrev pub NeverReturns : String → List StructureField → List StructureFieldDefinition → Type 0
  NeverReturns owner [] [] = Unit
  NeverReturns owner (f ∷ fs) (d ∷ ds) =
      ((refers d.schema ≡ false)
        ⊎ ¬ Leads (dependency_map structures structures) f.data_type_node_id owner)
      × NeverReturns owner fs ds
  NeverReturns owner _ _ = ⊥

  module _ (lower_case : String → String) (tables : Tables) (owner name : String) where
    emit_field_returns :
        (s : OpcuaStructure) (f : StructureField) (field_name : String)
        → Memᴰ (owner, s) structures
        → Memᴰ f s.fields
        → refers
            (emit_field lower_case tables
              (recursive_structure_fields structures)
              owner
              name
              f
              field_name).schema
          ≡ true
        → Leads (dependency_map structures structures) f.data_type_node_id owner
        → ⊥
    unfolding emit_field schema_of
    emit_field_returns s f field_name m mf r walk =
        elim (Bool-cases (has_key structures f.data_type_node_id)) [
          | inl key ↦
              let marked = has-recursive_structure_fields structures owner s f m mf key walk in
              absurd (ground (arith, marked))
          | inr other ↦
              let same = no_walk walk other in
              let (w, bound) = get_of_mem owner s structures m in
              absurd (
                false≢true (
                  sym other
                  ∙ subst (λ k. has_key structures k ≡ true) (sym same) (ground (arith, bound))))
        ]

    field_settled :
        (s : OpcuaStructure) (f : StructureField) (field_name : String)
        → Memᴰ (owner, s) structures
        → Memᴰ f s.fields
        → (refers
              (emit_field lower_case tables
                (recursive_structure_fields structures)
                owner
                name
                f
                field_name).schema
            ≡ false)
          ⊎ ¬ Leads (dependency_map structures structures) f.data_type_node_id owner
    field_settled s f field_name m mf =
        elim (Bool-cases (
          refers
            (emit_field lower_case tables (recursive_structure_fields structures) owner name f
              field_name).schema)) [
                | inl r ↦ inr (emit_field_returns s f field_name m mf r)
                | inr r ↦ inl r
              ]

    emit_fields_return :
        (s : OpcuaStructure) (names : List String) (index : ℕ) (fs : List StructureField)
        → Memᴰ (owner, s) structures
        → ((f : StructureField) → Memᴰ f fs → Memᴰ f s.fields)
        → NeverReturns owner fs (
            emit_fields lower_case tables
              (recursive_structure_fields structures)
              owner
              name
              names
              index
              fs)
    unfolding emit_fields
    emit_fields_return s names index [] m within = tt
    emit_fields_return s names index (f ∷ fs) m within = (
      field_settled s f _ m (within f (Memᴰ.head refl)),
      emit_fields_return s names (suc index) fs m (λ g mg. within g (Memᴰ.tail mg)),
    )

-- A field of a generated structure that refers to a structure never leads back to its owner: along
-- the dependencies of the input no walk from the field's data type reaches the structure itself.
pub references_never_return :
    (lower_case : String → String) (fallback : TypeFallback) (definitions : Definitions)
    (enums : EnumGraph) (id : String) (d : StructureDefinition)
    → get id (compile_structures lower_case fallback definitions enums).structures ≡ some d
    → (s : OpcuaStructure) × Memᴰ (id, s) (raw_structures definitions)
      × NeverReturns (raw_structures definitions) id s.fields d.fields
references_never_return lower_case fallback definitions enums id d e =
    let emitted = all-Emitted lower_case fallback definitions enums id d e in
    (
      emitted.source,
      emitted.listed,
      subst (NeverReturns (raw_structures definitions) id emitted.source.fields)
          (sym emitted.fields)
          (emit_fields_return (raw_structures definitions) lower_case _ id d.name emitted.source
            emitted.names 0 emitted.source.fields emitted.listed (λ f m. m)),
    )

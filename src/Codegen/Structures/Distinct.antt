-- ===== src/Codegen/Structures/Distinct.antt =====
-- What the last loop of compileStructures emits, and that no two structures share a generated name.
use mathlib.Core.List.{foldl}
use mathlib.Core.Bool.{false≢true}
use effect_opcua.Prelude.{
  String, Option, none, some, List, [], ◌∷◌, true, false, ◌==◌, ◌≡◌, refl, sym, ◌∙◌, subst, ap, ◌⊎◌,
  inl, inr, Memᴰ, Bool-cases, arith, eq_iff,
}
use effect_opcua.Prelude.Sets.{has, has-add}
use effect_opcua.Prelude.Maps.{Map, get, set, get-set}
use effect_opcua.Codegen.Issues.{Severity, Issue}
use effect_opcua.Codegen.Types.{OpcuaStructure, StructureDefinition, TypeFallback}
use effect_opcua.Codegen.BuiltinTypes.{type_fallback_severity}
use effect_opcua.Codegen.Naming.{Definitions, structures, naming}
use effect_opcua.Codegen.Naming.Distinct.{naming_distinct}
use effect_opcua.Codegen.Enums.{EnumGraph, find_collision}
use effect_opcua.Codegen.Recursion.{recursive_structure_fields}
use effect_opcua.Codegen.Structures.{
  Checked, NamedFields, FieldNames, raw_structures, check_type, check_types, settle_fields,
  named_fields, check_fields, name_fields, no_fields,
}
use effect_opcua.Codegen.Structures.Schema.{Tables}
use effect_opcua.Codegen.Structures.Emit.{
  StructureGraph, emit_fields, emit_named, emit_structure, checked_fields, tables_for,
  compile_structures,
}

module _ (severity : Severity) (names : Map String) (x : String) where
  has-check_types :
      (raw : Map OpcuaStructure) (c : Checked)
      → has x c.invalid ≡ true
      → has x (check_types severity names c raw).invalid ≡ true
  unfolding check_types
  has-check_types [] c h = h
  has-check_types ((id, s) ∷ raw) c h =
      has-check_types raw (check_type severity names c (id, s))
        (ground (arith, has-add id x c.invalid))

  has-settle_fields :
      (n : NamedFields) (id name : String) (f : FieldNames) (o : Option (String × List String))
      → has x n.checked.invalid ≡ true
      → has x (settle_fields n id name f o).checked.invalid ≡ true
  unfolding settle_fields
  has-settle_fields n id name f none h = h
  has-settle_fields n id name f (some c) h = ground (arith, has-add id x n.checked.invalid)

  has-check_fields :
      (n : NamedFields) (id : String) (s : OpcuaStructure)
      → has x n.checked.invalid ≡ true
      → has x (check_fields names n (id, s)).checked.invalid ≡ true
  unfolding check_fields
  has-check_fields n id s h = elim (Bool-cases (has id n.checked.invalid)) [
    | inl old ↦ rw old h
    | inr new ↦ rw new (named (get id names))
  ]
    where
      named : (o : Option String) → has x (named_fields n id s o).checked.invalid ≡ true
      named none = h
      named (some name) =
          let f = name_fields id name 0 s.fields no_fields in
          has-settle_fields n id name f (find_collision f.groups) h

  has-check_all :
      (raw : Map OpcuaStructure) (n : NamedFields)
      → has x n.checked.invalid ≡ true
      → has x (foldl (check_fields names) n raw).checked.invalid ≡ true
  has-check_all [] n h = h
  has-check_all ((id, s) ∷ raw) n h =
      has-check_all raw (check_fields names n (id, s)) (has-check_fields n id s h)

-- What the naming pass makes invalid stays invalid.
has-checked_fields :
    (severity : Severity) (definitions : Definitions) (x : String)
    → has x (naming structures definitions).invalid ≡ true
    → has x (checked_fields severity definitions).checked.invalid ≡ true
unfolding checked_fields
has-checked_fields severity definitions x h =
    has-check_all severity (naming structures definitions).names x (raw_structures definitions) _ (
      has-check_types severity (naming structures definitions).names x (raw_structures definitions)
        _ h)

module _ (lower_case : String → String) (tables : Tables)
    (recursive field_names : Map (List String)) where
  -- An emitted structure is valid, has its name from the naming pass and its fields from a structure
  -- of the input.
  pub record Emitted (raw : Map OpcuaStructure) (id : String) (d : StructureDefinition)
      : Type 0 where
    pub valid : has id tables.invalid_structures ≡ false
    pub named : get id tables.structure_names ≡ some d.name
    pub source : OpcuaStructure
    pub listed : Memᴰ (id, source) raw
    pub names : List String
    pub checked : get id field_names ≡ some names
    pub fields : d.fields ≡ emit_fields lower_case tables recursive id d.name names 0 source.fields

  abbrev AllEmitted : Map OpcuaStructure → StructureGraph → Type 0
  AllEmitted raw g =
      (g.invalid_structures ≡ tables.invalid_structures)
      × ((id : String) (d : StructureDefinition) → get id g.structures ≡ some d → Emitted raw id d)

  emit_named-AllEmitted :
      (raw : Map OpcuaStructure) (g : StructureGraph) (id : String) (s : OpcuaStructure)
      (name : Option String) (names : Option (List String))
      → has id tables.invalid_structures ≡ false
      → Memᴰ (id, s) raw
      → get id tables.structure_names ≡ name
      → get id field_names ≡ names
      → AllEmitted raw g
      → AllEmitted raw (emit_named lower_case tables recursive g id s name names)
  unfolding emit_named
  emit_named-AllEmitted raw g id s none o valid m e k h = h
  emit_named-AllEmitted raw g id s (some name) none valid m e k h = h
  emit_named-AllEmitted raw g id s (some name) (some names) valid m e k h =
      (h.0, λ j d r. at j d r (Bool-cases (id == j)))
    where
      new : StructureDefinition
      new = record {
        name = name;
        data_type_node_id = id;
        browse_name = s.name;
        fields = emit_fields lower_case tables recursive id name names 0 s.fields;
      }

      at :
          (j : String) (d : StructureDefinition)
          → get j (set id new g.structures) ≡ some d
          → (id == j ≡ true) ⊎ (id == j ≡ false)
          → Emitted raw j d
      at j d r (inl same) =
          let key : id ≡ j = (eq_iff id j).0 same in
          let value : new ≡ d = ground (arith, get-set id j new g.structures) in
          subst (λ i. Emitted raw i d) key
            (subst (Emitted raw id) value (record {
              valid = valid;
              named = e;
              source = s;
              listed = m;
              names = names;
              checked = k;
              fields = refl;
            }))
      at j d r (inr other) = h.1 j d (ground (arith, get-set id j new g.structures))

  emit_structure-AllEmitted :
      (raw : Map OpcuaStructure) (g : StructureGraph) (id : String) (s : OpcuaStructure)
      → Memᴰ (id, s) raw
      → AllEmitted raw g
      → AllEmitted raw (emit_structure lower_case tables recursive field_names g (id, s))
  unfolding emit_structure
  emit_structure-AllEmitted raw g id s m h = elim (Bool-cases (has id g.invalid_structures)) [
    | inl old ↦ rw old h
    | inr new ↦ rw new (
        emit_named-AllEmitted raw g id s (get id tables.structure_names) (get id field_names)
          (rw (← h.0) new) m refl refl h)
  ]

  AllEmitted-start :
      (raw : Map OpcuaStructure) (issues : List Issue)
      → AllEmitted raw (record {
        structures = [];
        invalid_structures = tables.invalid_structures;
        issues = issues;
      })
  unfolding get
  AllEmitted-start raw issues = (refl, λ id d r. absurd (none_ne_some r))
    where
      none_ne_some : {d : StructureDefinition} → none ≡ some d → ⊥
      none_ne_some e = cc

  foldl-AllEmitted :
      (raw rest : Map OpcuaStructure) (g : StructureGraph)
      → ((e : String × OpcuaStructure) → Memᴰ e rest → Memᴰ e raw)
      → AllEmitted raw g
      → AllEmitted raw (foldl (emit_structure lower_case tables recursive field_names) g rest)
  foldl-AllEmitted raw [] g within h = h
  foldl-AllEmitted raw ((id, s) ∷ rest) g within h =
      foldl-AllEmitted raw rest (emit_structure lower_case tables recursive field_names g (id, s))
        (λ e m. within e (Memᴰ.tail m))
        (emit_structure-AllEmitted raw g id s (within (id, s) (Memᴰ.head refl)) h)

module _ (lower_case : String → String) (fallback : TypeFallback) (definitions : Definitions)
    (enums : EnumGraph) where
  abbrev raw : Map OpcuaStructure
  raw = raw_structures definitions

  pub all-Emitted :
      (id : String) (d : StructureDefinition)
      → get id (compile_structures lower_case fallback definitions enums).structures ≡ some d
      → Emitted lower_case
          (tables_for (type_fallback_severity fallback) definitions enums)
          (recursive_structure_fields raw)
          (checked_fields (type_fallback_severity fallback) definitions).valid_field_names
          raw
          id
          d
  unfolding compile_structures get
  all-Emitted =
      (foldl-AllEmitted lower_case (tables_for (type_fallback_severity fallback) definitions enums)
        (recursive_structure_fields raw)
        (checked_fields (type_fallback_severity fallback) definitions).valid_field_names raw raw _
        (λ e m. m)
        (AllEmitted-start lower_case
          (tables_for (type_fallback_severity fallback) definitions enums)
          (recursive_structure_fields raw)
          (checked_fields (type_fallback_severity fallback) definitions).valid_field_names raw
          (checked_fields (type_fallback_severity fallback) definitions).checked.issues)).1

  -- Two data types that are generated as structures have different names.
  pub structure_names_distinct :
      (a b : String) (da db : StructureDefinition)
      → get a (compile_structures lower_case fallback definitions enums).structures ≡ some da
      → get b (compile_structures lower_case fallback definitions enums).structures ≡ some db
      → ¬ (a ≡ b)
      → ¬ (da.name ≡ db.name)
  unfolding tables_for
  structure_names_distinct a b da db ea eb other same =
      let ia = all-Emitted a da ea in
      let ib = all-Emitted b db eb in
      other (
        naming_distinct structures definitions a b da.name ia.named (ib.named ∙ ap some (sym same))
          (still_valid a ia.valid))
    where
      still_valid :
          (x : String)
          → has x (checked_fields (type_fallback_severity fallback) definitions).checked.invalid
            ≡ false
          → has x (naming structures definitions).invalid ≡ false
      still_valid x h = elim (Bool-cases (has x (naming structures definitions).invalid)) [
        | inl old ↦ absurd (
            false≢true
              (sym h ∙ has-checked_fields (type_fallback_severity fallback) definitions x old))
        | inr new ↦ new
      ]

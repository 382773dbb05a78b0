-- ===== src/Codegen/Recursion/Marks.antt =====
-- recursiveStructureFields marks every field from which its structure is reached again.
use effect_opcua.Prelude.{
  suc, String, List, [], ◌∷◌, true, ◌≡◌, refl, sym, ap, subst, ◌↔◌, ◌⊎◌, inl, inr, ⊎_elim, Memᴰ,
  mem-cons_iff, mem-nil, Bool-cases, arith, eq_iff, length,
}
use effect_opcua.Prelude.Sets.{has, add, has-add}
use effect_opcua.Prelude.Maps.{Map, get-set}
use effect_opcua.Prelude.Groups.{items}
use effect_opcua.Codegen.Types.{OpcuaStructure, StructureField}
use effect_opcua.Codegen.Recursion.{
  has_key, dependency_map, is_recursive, mark_field, mark_fields, mark_structures,
  recursive_structure_fields,
}
use effect_opcua.Codegen.Recursion.Walks.{Leads}
use effect_opcua.Codegen.Recursion.Decides.{reaches_decides}

module _ (structures : Map OpcuaStructure) where
  -- A field is recursive exactly if its data type is a structure that leads back to the owner.
  pub is_recursive_iff :
      (owner field : String)
      → (is_recursive structures owner field ≡ true) ↔ (
          (has_key structures field ≡ true)
          × Leads (dependency_map structures structures) field owner)
  unfolding is_recursive
  is_recursive_iff owner field =
      let deps = dependency_map structures structures in
      let (b, after, e, meaning) =
        reaches_decides owner deps field (suc (length deps)) (omega arith) in
      elim (Bool-cases (has_key structures field)) [
        | inl key ↦ (
          λ r. (key, meaning.0 (ground arith)),
          λ (_, walk). let t = meaning.1 walk in ground arith,
        )
        | inr other ↦ (λ r. absurd (ground arith), λ (key, _). absurd (ground arith))
      ]

  has-mark_field :
      (owner field o x : String) (result : Map (List String))
      → (has x (items o result) ≡ true)
        ⊎ (owner ≡ o) × (field ≡ x) × (is_recursive structures owner field ≡ true)
      → has x (items o (mark_field structures owner result field)) ≡ true
  unfolding mark_field
  has-mark_field owner field o x result h = ground (
    arith,
    get-set owner o (add field (items owner result)) result,
    has-add field x (items owner result),
    eq_iff owner o,
    eq_iff field x,
  )

  has-mark_fields :
      (owner o x : String) (fields : List StructureField) (result : Map (List String))
      → has x (items o result) ≡ true
      → has x (items o (mark_fields structures owner fields result)) ≡ true
  unfolding mark_fields
  has-mark_fields owner o x [] result h = h
  has-mark_fields owner o x (f ∷ fields) result h =
      has-mark_fields owner o x fields (mark_field structures owner result f.data_type_node_id)
        (has-mark_field owner f.data_type_node_id o x result (inl h))

  has-mark_fields_new :
      (owner : String) (f : StructureField) (fields : List StructureField)
      (result : Map (List String))
      → Memᴰ f fields
      → is_recursive structures owner f.data_type_node_id ≡ true
      → has f.data_type_node_id (items owner (mark_fields structures owner fields result)) ≡ true
  unfolding mark_fields
  has-mark_fields_new owner f [] result m h = absurd (mem-nil m)
  has-mark_fields_new owner f (g ∷ fields) result m h =
      let result' = mark_field structures owner result g.data_type_node_id in
      ⊎_elim
        (λ (e : f ≡ g).
          let same : g.data_type_node_id ≡ f.data_type_node_id =
            ap (λ (s : StructureField). s.data_type_node_id) (sym e) in
          has-mark_fields owner owner f.data_type_node_id fields result' (
            has-mark_field owner g.data_type_node_id owner f.data_type_node_id result
              (inr (refl, same, rw same h))))
        (λ later. has-mark_fields_new owner f fields result' later h)
        ((mem-cons_iff f g fields).0 m)

  has-mark_structures :
      (o x : String) (rest : Map OpcuaStructure) (result : Map (List String))
      → has x (items o result) ≡ true
      → has x (items o (mark_structures structures rest result)) ≡ true
  unfolding mark_structures
  has-mark_structures o x [] result h = h
  has-mark_structures o x ((id, s) ∷ rest) result h =
      has-mark_structures o x rest (mark_fields structures id s.fields result)
        (has-mark_fields id o x s.fields result h)

  has-mark_structures_new :
      (owner : String) (s : OpcuaStructure) (f : StructureField) (rest : Map OpcuaStructure)
      (result : Map (List String))
      → Memᴰ (owner, s) rest
      → Memᴰ f s.fields
      → is_recursive structures owner f.data_type_node_id ≡ true
      → has f.data_type_node_id (items owner (mark_structures structures rest result)) ≡ true
  unfolding mark_structures
  has-mark_structures_new owner s f [] result m mf h = absurd (mem-nil m)
  has-mark_structures_new owner s f ((id, r) ∷ rest) result m mf h =
      let result' = mark_fields structures id r.fields result in
      ⊎_elim
        (λ (e : (owner, s) ≡ (id, r)).
          let same : owner ≡ id = ap (λ (p : String × OpcuaStructure). p.0) e in
          let source : s ≡ r = ap (λ (p : String × OpcuaStructure). p.1) e in
          has-mark_structures owner f.data_type_node_id rest result' (
            subst
              (λ (p : String × OpcuaStructure).
                has f.data_type_node_id (items owner (mark_fields structures p.0 p.1.fields result))
                ≡ true)
              e (has-mark_fields_new owner f s.fields result mf h)))
        (λ later. has-mark_structures_new owner s f rest result' later mf h)
        ((mem-cons_iff (owner, s) (id, r) rest).0 m)

  -- A field of a listed structure that leads back to the structure is marked.
  pub has-recursive_structure_fields :
      (owner : String) (s : OpcuaStructure) (f : StructureField)
      → Memᴰ (owner, s) structures
      → Memᴰ f s.fields
      → has_key structures f.data_type_node_id ≡ true
      → Leads (dependency_map structures structures) f.data_type_node_id owner
      → has f.data_type_node_id (items owner (recursive_structure_fields structures)) ≡ true
  unfolding recursive_structure_fields
  has-recursive_structure_fields owner s f m mf key walk =
      has-mark_structures_new owner s f structures [] m mf
        ((is_recursive_iff owner f.data_type_node_id).1 (key, walk))

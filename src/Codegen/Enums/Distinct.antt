-- ===== src/Codegen/Enums/Distinct.antt =====
-- What the last loop of compileEnums emits, and that no two enums share a generated name.
use mathlib.Core.List.{foldl, Nodup}
use mathlib.Core.Bool.{false≢true}
use Prim.Native.Nat.{Ordering}
use effect_opcua.Prelude.{
  String, Option, none, some, List, [], ◌∷◌, map, true, false, ◌==◌, ◌≡◌, refl, sym, ◌∙◌, subst,
  ◌⊎◌, inl, inr, Memᴰ, Bool-cases, arith, eq_iff,
}
use effect_opcua.Prelude.Sets.{has, has-add}
use effect_opcua.Prelude.Maps.{get, set, get-set}
use effect_opcua.Prelude.Sort.{sort}
use effect_opcua.Prelude.Groups.{items}
use effect_opcua.Codegen.Types.{
  DataTypeDefinition, structure_definition, enum_definition, OpcuaEnum, EnumMember, EnumDefinition,
}
use effect_opcua.Codegen.Names.{sanitize_pascal}
use effect_opcua.Codegen.Naming.{Definitions, enums, naming, name_definitions, unnamed}
use effect_opcua.Codegen.Naming.Distinct.{mem_group, group_distinct}
use effect_opcua.Codegen.Enums.{
  EnumGraph, member_le, enum_members, find_collision, settle_enum, named_enum, compile_enum,
  compile_entry, enums_start, compile_enums,
}
use effect_opcua.Codegen.Enums.Fields.{members-Nodup}

module _ (locale_compare : String → String → Ordering) (defs : Definitions) where
  -- An emitted enum is valid, has the name of a definition of the input, and its members.
  pub record Emitted (id : String) (e : EnumDefinition) : Type 0 where
    pub valid : has id (naming enums defs).invalid ≡ false
    pub source : OpcuaEnum
    pub listed : Memᴰ (id, enum_definition source) defs
    pub named : sanitize_pascal source.name ≡ some e.name
    pub free : find_collision (enum_members id source.fields).groups ≡ none
    pub members :
        e.members ≡ sort (member_le locale_compare) (enum_members id source.fields).members

  record AllEmitted (g : EnumGraph) : Type 0 where
    kept : (x : String) → has x (naming enums defs).invalid ≡ true → has x g.invalid_enums ≡ true
    emitted : (id : String) (e : EnumDefinition) → get id g.enums ≡ some e → Emitted id e

  settle_enum-AllEmitted :
      (g : EnumGraph) (id name : String) (e : OpcuaEnum) (o : Option (String × List String))
      → has id (naming enums defs).invalid ≡ false
      → Memᴰ (id, enum_definition e) defs
      → sanitize_pascal e.name ≡ some name
      → find_collision (enum_members id e.fields).groups ≡ o
      → AllEmitted g
      → AllEmitted (settle_enum locale_compare id g name e (enum_members id e.fields) o)
  unfolding settle_enum
  settle_enum-AllEmitted g id name e (some c) valid m n f h = record {
    kept = λ x old. ground (arith, h.kept x old, has-add id x g.invalid_enums);
    emitted = h.emitted;
  }
  settle_enum-AllEmitted g id name e none valid m n f h = record {
    kept = h.kept;
    emitted = λ j d r. at j d r (Bool-cases (id == j));
  }
    where
      new : EnumDefinition
      new = record {
        name = name;
        data_type_node_id = id;
        browse_name = e.name;
        members = sort (member_le locale_compare) (enum_members id e.fields).members;
      }

      at :
          (j : String) (d : EnumDefinition)
          → get j (set id new g.enums) ≡ some d
          → (id == j ≡ true) ⊎ (id == j ≡ false)
          → Emitted j d
      at j d r (inl same) =
          let key : id ≡ j = (eq_iff id j).0 same in
          let value : new ≡ d = ground (arith, get-set id j new g.enums) in
          subst (λ i. Emitted i d) key
            (subst (Emitted id) value (record {
              valid = valid;
              source = e;
              listed = m;
              named = n;
              free = f;
              members = refl;
            }))
      at j d r (inr other) = h.emitted j d (ground (arith, get-set id j new g.enums))

  named_enum-AllEmitted :
      (g : EnumGraph) (id : String) (e : OpcuaEnum) (o : Option String)
      → has id (naming enums defs).invalid ≡ false
      → Memᴰ (id, enum_definition e) defs
      → sanitize_pascal e.name ≡ o
      → AllEmitted g
      → AllEmitted (named_enum locale_compare id g e o)
  unfolding named_enum
  named_enum-AllEmitted g id e none valid m n h = h
  named_enum-AllEmitted g id e (some name) valid m n h =
      settle_enum-AllEmitted g id name e (find_collision (enum_members id e.fields).groups) valid m
        n refl h

  not_invalid :
      (g : EnumGraph) (id : String)
      → AllEmitted g
      → has id g.invalid_enums ≡ false
      → has id (naming enums defs).invalid ≡ false
  not_invalid g id h new = elim (Bool-cases (has id (naming enums defs).invalid)) [
    | inl old ↦ absurd (false≢true (sym new ∙ h.kept id old))
    | inr valid ↦ valid
  ]

  compile_entry-AllEmitted :
      (g : EnumGraph) (id : String) (d : DataTypeDefinition)
      → Memᴰ (id, d) defs
      → AllEmitted g
      → AllEmitted (compile_entry locale_compare g (id, d))
  unfolding compile_entry compile_enum
  compile_entry-AllEmitted g id (structure_definition s) m h = h
  compile_entry-AllEmitted g id (enum_definition e) m h =
      elim (Bool-cases (has id g.invalid_enums)) [
        | inl old ↦ rw old h
        | inr new ↦ rw new (
            named_enum-AllEmitted g id e (sanitize_pascal e.name) (not_invalid g id h new) m refl h)
      ]

  foldl-AllEmitted :
      (rest : Definitions) (g : EnumGraph)
      → ((x : String × DataTypeDefinition) → Memᴰ x rest → Memᴰ x defs)
      → AllEmitted g
      → AllEmitted (foldl (compile_entry locale_compare) g rest)
  foldl-AllEmitted [] g within h = h
  foldl-AllEmitted ((id, d) ∷ rest) g within h =
      foldl-AllEmitted rest (compile_entry locale_compare g (id, d)) (λ x m. within x (Memᴰ.tail m))
        (compile_entry-AllEmitted g id d (within (id, d) (Memᴰ.head refl)) h)

  AllEmitted-start : AllEmitted (enums_start (naming enums defs))
  unfolding get
  AllEmitted-start = record { kept = λ x h. h; emitted = λ id e r. absurd (none_ne_some r) }
    where
      none_ne_some : {e : EnumDefinition} → none ≡ some e → ⊥
      none_ne_some p = cc

  pub all-Emitted :
      (id : String) (e : EnumDefinition)
      → get id (compile_enums locale_compare defs).enums ≡ some e
      → Emitted id e
  unfolding compile_enums
  all-Emitted = (foldl-AllEmitted defs _ (λ x m. m) AllEmitted-start).emitted

  emitted_group :
      {id : String} {e : EnumDefinition}
      → Emitted id e
      → Memᴰ id (items e.name (name_definitions enums defs).groups)
  unfolding name_definitions
  emitted_group {id} {e} h =
      mem_group enums defs unnamed id h.source.name e.name (enum_definition h.source) h.listed refl
        h.named

  -- No name comes twice among the members of a generated enum, and a data type that is generated as an
  -- enum too is the same one or has another name.
  pub enum_names_distinct :
      (a b : String) (ea eb : EnumDefinition)
      → get a (compile_enums locale_compare defs).enums ≡ some ea
      → get b (compile_enums locale_compare defs).enums ≡ some eb
      → Nodup (map (λ (m : EnumMember). m.name) ea.members) × ((a ≡ b) ⊎ ¬ (ea.name ≡ eb.name))
  enum_names_distinct a b ea eb ra rb =
      let ha = all-Emitted a ea ra in
      let hb = all-Emitted b eb rb in
      (
        subst (λ l. Nodup (map (λ (m : EnumMember). m.name) l)) (sym ha.members)
            (members-Nodup a (member_le locale_compare) ha.source.fields ha.free),
        elim (Bool-cases (a == b)) [
          | inl same ↦ inl ((eq_iff a b).0 same)
          | inr differ ↦ inr (λ same.
              let one =
                group_distinct enums defs a b ea.name (emitted_group ha)
                  (subst (λ n. Memᴰ b (items n (name_definitions enums defs).groups)) (sym same)
                    (emitted_group hb))
                  ha.valid in
              false≢true (sym differ ∙ (eq_iff a b).1 one))
        ],
      )

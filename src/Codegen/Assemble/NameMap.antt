-- ===== src/Codegen/Assemble/NameMap.antt =====
-- sortStructures: the Map of the structures by name.
use mathlib.Core.List.Memᴰ
use effect_opcua.Prelude.{
  suc, ◌+◌, ◌≤◌, String, some, List, [], ◌∷◌, length, ◌==◌, ◌≡◌, sym, ap, ◌∙◌, ◌⊎◌, inl, inr,
  ⊎_elim, Memᴰ, mem-nil, Bool-cases, arith, eq_iff,
}
use effect_opcua.Prelude.Maps.{Map, get, set, get-set}
use effect_opcua.Codegen.Types.{StructureDefinition}
use effect_opcua.Codegen.Assemble.{name_map}

length-set : {V : Type 0} (k : String) (v : V) (m : Map V) → length (set k v m) ≤ suc (length m)
unfolding set
length-set k v [] = omega arith
length-set k v ((j, w) ∷ m) = ground (arith, length-set k v m)

-- The map has an entry for every structure's name, no more entries than structures, and under a name a
-- structure of that name.
pub length-name_map :
    (structures : List StructureDefinition) (m : Map StructureDefinition)
    → length (name_map structures m) ≤ length structures + length m
unfolding name_map
length-name_map [] m = omega arith
length-name_map (s ∷ rest) m =
    omega (arith, length-name_map rest (set s.name s m), length-set s.name s m)

pub get-name_map :
    (structures : List StructureDefinition) (m : Map StructureDefinition) (k : String)
    → ((s : StructureDefinition)
        → Memᴰ s structures
        → s.name ≡ k
        → (t : StructureDefinition) × (get k (name_map structures m) ≡ some t))
      × ((t : StructureDefinition)
          → get k m ≡ some t
          → (t' : StructureDefinition) × (get k (name_map structures m) ≡ some t'))
unfolding name_map
get-name_map [] m k = (λ s h. absurd (mem-nil h), λ t e. (t, e))
get-name_map (s ∷ rest) m k =
    let (listed, kept) = get-name_map rest (set s.name s m) k in
    (
      λ z h e.
          ⊎_elim
            (λ same. kept s (
              ground (
                arith,
                get-set s.name k s m,
                eq_iff s.name k,
                ap (λ (y : StructureDefinition). y.name) same,
                e,
              )))
            (λ later. listed z later e) (Memᴰ.cases_cons h),
      λ t e. elim (Bool-cases (s.name == k)) [
        | inl same ↦ kept s (ground (arith, get-set s.name k s m))
        | inr other ↦ kept t (ground (arith, get-set s.name k s m))
      ],
    )

pub name-name_map :
    (structures : List StructureDefinition) (m : Map StructureDefinition)
    → ((k : String) (t : StructureDefinition) → get k m ≡ some t → t.name ≡ k)
    → (k : String) (t : StructureDefinition) → get k (name_map structures m) ≡ some t
    → t.name ≡ k
unfolding name_map
name-name_map [] m named k t e = named k t e
name-name_map (s ∷ rest) m named k t e =
    name-name_map rest (set s.name s m)
      (λ j u f. elim (Bool-cases (s.name == j)) [
        | inl same ↦
            let this : s ≡ u = ground (arith, get-set s.name j s m) in
            ap (λ (y : StructureDefinition). y.name) (sym this) ∙ (eq_iff s.name j).0 same
        | inr other ↦ named j u (ground (arith, get-set s.name j s m))
      ])
      k t e

-- An entry of the map is one of the structures.
pub mem-name_map :
    (structures : List StructureDefinition) (m : Map StructureDefinition) (k : String)
    (t : StructureDefinition)
    → get k (name_map structures m) ≡ some t
    → Memᴰ t structures ⊎ (get k m ≡ some t)
unfolding name_map
mem-name_map [] m k t e = inr e
mem-name_map (s ∷ rest) m k t e =
    ⊎_elim (λ n. inl (Memᴰ.tail n))
      (λ g. elim (Bool-cases (s.name == k)) [
        | inl same ↦
            inl (Memᴰ.head (let e' : s ≡ t = ground (arith, get-set s.name k s m) in sym e'))
        | inr other ↦ inr (ground (arith, get-set s.name k s m))
      ])
      (mem-name_map rest (set s.name s m) k t e)

-- ===== src/Codegen/Assemble/Sorted.antt =====
-- sortStructures ends within its fuel and loses no structure.
use mathlib.Core.List.{map-append}
use mathlib.Core.List.Memᴰ
use mathlib.Core.Bool.{false≢true}
use Prim.Native.Nat.{Ordering}
use effect_opcua.Prelude.{
  ℕ, zero, suc, ◌<◌, String, Option, none, some, List, [], ◌∷◌, ◌++◌, map, length, Bool, true, ◌==◌,
  ◌≡◌, refl, sym, subst, ◌⊎◌, inl, inr, ⊎_elim, Memᴰ, mem-nil, Bool-cases, Option-cases, arith,
  eq_iff, eq_refl,
}
use effect_opcua.Prelude.Sets.{has, add, has-add}
use effect_opcua.Prelude.Maps.{Map, get}
use effect_opcua.Prelude.Unseen.{unseen, unseen-le-length, unseen_mono, unseen-add}
use effect_opcua.Prelude.Sort.{sort, sort-mem, mem-sort}
use effect_opcua.Codegen.Types.{StructureDefinition}
use effect_opcua.Codegen.Assemble.NameMap.{length-name_map, get-name_map, name-name_map}
use effect_opcua.Codegen.Assemble.{
  Visited, visit_all, visit, visit_structures, name_map, structure_dependencies, sort_structures,
  sorted_of,
}

abbrev pub names_of : List StructureDefinition → List String
names_of = map (λ (s : StructureDefinition). s.name)

pub names-kept :
    (x : String) (l : List StructureDefinition) (s : StructureDefinition)
    → Memᴰ x (names_of l)
    → Memᴰ x (names_of (l ++ s ∷ []))
names-kept x l s m =
    subst (Memᴰ x) (sym (map-append (λ (z : StructureDefinition). z.name) l (s ∷ [])))
      (Memᴰ.append_left (s.name ∷ []) m)

pub names-last :
    (l : List StructureDefinition) (s : StructureDefinition) → Memᴰ s.name (names_of (l ++ s ∷ []))
names-last l s =
    subst (Memᴰ s.name) (sym (map-append (λ (z : StructureDefinition). z.name) l (s ∷ [])))
      (Memᴰ.append_right (names_of l) (Memᴰ.head refl))

-- What a visit does to the variables: nothing is taken away, and what is newly seen is sorted too.
record IsLater (v v' : Visited) : Type 0 where
  pub seen : (x : String) → has x v.seen ≡ true → has x v'.seen ≡ true
  pub sorted : (x : String) → Memᴰ x (names_of v.sorted) → Memᴰ x (names_of v'.sorted)
  pub new :
      (x : String) → has x v'.seen ≡ true → (has x v.seen ≡ true) ⊎ Memᴰ x (names_of v'.sorted)

IsLater-refl : (v : Visited) → IsLater v v
IsLater-refl v = record { seen = λ x h. h; sorted = λ x h. h; new = λ x h. inl h }

IsLater-trans : (a b c : Visited) → IsLater a b → IsLater b c → IsLater a c
IsLater-trans a b c h k = record {
  seen = λ x e. k.seen x (h.seen x e);
  sorted = λ x e. k.sorted x (h.sorted x e);
  new = λ x e. ⊎_elim (λ old. ⊎_elim inl (λ m. inr (k.sorted x m)) (h.new x old)) inr (k.new x e);
}

-- The visit of a structure that was not seen: it is marked, its dependencies are visited, and it is
-- sorted in.
IsLater-visit :
    (s : StructureDefinition) (v v' : Visited)
    → IsLater (record v { seen = add s.name v.seen }) v'
    → IsLater v (record v' { sorted = v'.sorted ++ s ∷ [] })
IsLater-visit s v v' h = record {
  seen = λ x e. h.seen x (ground (arith, has-add s.name x v.seen));
  sorted = λ x m. names-kept x v'.sorted s (h.sorted x m);
  new = λ x e.
      ⊎_elim
        (λ marked. elim (Bool-cases (s.name == x)) [
          | inl same ↦ inr (
              subst (λ y. Memᴰ y (names_of (v'.sorted ++ s ∷ []))) ((eq_iff s.name x).0 same)
                (names-last v'.sorted s))
          | inr other ↦ inl (ground (arith, has-add s.name x v.seen))
        ])
        (λ m. inr (names-kept x v'.sorted s m)) (h.new x e);
}

module _ (text_le : String → String → Bool) (m : Map StructureDefinition)
    (named : (k : String) (t : StructureDefinition) → get k m ≡ some t → t.name ≡ k) where
  -- The visit returned, did as above, and has seen its structure.
  abbrev Returns : StructureDefinition → Visited → Option Visited → Type 0
  Returns s v r = (v' : Visited) × (r ≡ some v') × IsLater v v' × (has s.name v'.seen ≡ true)

  visit_all-IsLater :
      (fuel : ℕ)
      → ((s t : StructureDefinition) (v : Visited)
          → get s.name m ≡ some t
          → unseen v.seen m < fuel
          → Returns s v (visit text_le m fuel s v))
      → (names : List String) (v : Visited) → unseen v.seen m < fuel
      → (v' : Visited) × (visit_all text_le m (visit text_le m fuel) names v ≡ some v')
        × IsLater v v'
  unfolding visit_all
  visit_all-IsLater fuel ih [] v enough = (v, refl, IsLater-refl v)
  visit_all-IsLater fuel ih (name ∷ names) v enough = elim (Option-cases (get name m)) [
    | inl missing ↦
        let (v', e, later) = visit_all-IsLater fuel ih names v enough in
        (v', rw (visit_all, missing) e, later)
    | inr (t, found) ↦
        let key = subst (λ k. get k m ≡ some t) (sym (named name t found)) found in
        let (v', e, later, _) = ih t t v key enough in
        let (v'', es, rest) =
          visit_all-IsLater fuel ih names v'
            (omega (arith, unseen_mono v.seen v'.seen m later.seen)) in
        (v'', rw (visit_all, found, e) es, IsLater-trans v v' v'' later rest)
  ]

  visit-Returns :
      (fuel : ℕ) (s t : StructureDefinition) (v : Visited)
      → get s.name m ≡ some t
      → unseen v.seen m < fuel
      → Returns s v (visit text_le m fuel s v)
  unfolding visit
  visit-Returns zero s t v key enough = absurd (omega arith)
  visit-Returns (suc fuel) s t v key enough = elim (Bool-cases (has s.name v.seen)) [
    | inl old ↦ rw old (v, refl, IsLater-refl v, old)
    | inr new ↦
        let marked : Visited = record v { seen = add s.name v.seen } in
        let (v', e, later) =
          visit_all-IsLater fuel (visit-Returns fuel) (sort text_le (structure_dependencies s))
            marked (omega (arith, unseen-add s.name v.seen m t new key)) in
        rw (new, e)
          (
            record v' { sorted = v'.sorted ++ s ∷ [] },
            refl,
            IsLater-visit s v v' later,
            later.seen s.name (ground (arith, has-add s.name s.name v.seen, eq_refl s.name)),
          )
  ]

  visit_structures-IsLater :
      (fuel : ℕ) (structures : List StructureDefinition) (v : Visited)
      → ((s : StructureDefinition)
          → Memᴰ s structures
          → (t : StructureDefinition) × (get s.name m ≡ some t))
      → length m < fuel
      → (v' : Visited) × (visit_structures text_le m fuel structures v ≡ some v')
        × IsLater v v'
        × ((s : StructureDefinition) → Memᴰ s structures → has s.name v'.seen ≡ true)
  unfolding visit_structures
  visit_structures-IsLater fuel [] v keys enough =
      (v, refl, IsLater-refl v, λ s h. absurd (mem-nil h))
  visit_structures-IsLater fuel (s ∷ structures) v keys enough =
      let (t, key) = keys s (Memᴰ.head refl) in
      let (v', e, later, own) =
        visit-Returns fuel s t v key (omega (arith, unseen-le-length v.seen m)) in
      let (v'', es, rest, others) =
        visit_structures-IsLater fuel structures v' (λ z h. keys z (Memᴰ.tail h)) enough in
      (
        v'',
        rw (visit_structures, e) es,
        IsLater-trans v v' v'' later rest,
        λ z h.
            ⊎_elim
              (λ same. rest.seen z.name (subst (λ y. has y.name v'.seen ≡ true) (sym same) own))
              (others z) (Memᴰ.cases_cons h),
      )

pub no_entry : {A : Type 0} {a : A} → ¬ (none ≡ some a)
no_entry h = cc

abbrev nothing_visited : Visited
nothing_visited = record { sorted = []; seen = [] }

sorted_of-visit_structures :
    (text_le : String → String → Bool) (structures listed : List StructureDefinition)
    → ((s : StructureDefinition) → Memᴰ s listed → Memᴰ s structures)
    → (s : StructureDefinition) → Memᴰ s listed
    → Memᴰ s.name (
        names_of (
          sorted_of (
            visit_structures text_le
              (name_map structures [])
              (suc (length structures))
              listed
              nothing_visited)))
unfolding has get
sorted_of-visit_structures text_le structures listed within s h =
    let m = name_map structures [] in
    let (v', e, later, all) =
      visit_structures-IsLater text_le m
        (name-name_map structures [] (λ k t e. absurd (no_entry e))) (suc (length structures))
        listed nothing_visited (λ z hz. (get-name_map structures [] z.name).0 z (within z hz) refl)
        (omega (arith, length-name_map structures [])) in
    subst (λ r. Memᴰ s.name (names_of (sorted_of r))) (sym e)
      (⊎_elim (λ old. absurd (false≢true old)) (λ found. found) (later.new s.name (all s h)))

-- sortStructures ends within its fuel, also where the dependencies have a cycle, and the name of
-- every structure that it is given stands in its result.
pub mem-sort_structures :
    (locale_compare : String → String → Ordering) (text_le : String → String → Bool)
    (structures : List StructureDefinition) (s : StructureDefinition)
    → Memᴰ s structures
    → Memᴰ s.name (names_of (sort_structures locale_compare text_le structures))
unfolding sort_structures
mem-sort_structures locale_compare text_le structures s h =
    sorted_of-visit_structures text_le structures _ (λ z hz. mem-sort _ structures hz) s
      (sort-mem _ structures h)

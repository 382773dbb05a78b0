-- ===== src/Codegen/Assemble/Ordered.antt =====
-- sortStructures puts every structure behind those that it depends on, but for the ones that lead back.
use mathlib.Core.List.Memᴰ
use mathlib.Core.Option.{some-injective}
use Prim.Native.Nat.{Ordering}
use effect_opcua.Prelude.{
  ℕ, zero, suc, String, some, List, [], ◌∷◌, ◌++◌, length, Bool, true, ◌≡◌, refl, sym, ap, subst,
  ◌∙◌, ◌⊎◌, inl, inr, ⊎_elim, Memᴰ, mem-nil, Bool-cases, Option-cases, arith, eq_refl,
}
use effect_opcua.Prelude.Sets.{has, add, has-add}
use effect_opcua.Prelude.Maps.{Map, get}
use effect_opcua.Prelude.Sort.{sort, sort-mem, mem-sort}
use effect_opcua.Codegen.Types.{StructureDefinition}
use effect_opcua.Codegen.Assemble.NameMap.{get-name_map, name-name_map, mem-name_map}
use effect_opcua.Codegen.Assemble.{
  Visited, visit_all, visit, visit_structures, name_map, structure_dependencies, sort_structures,
  locale_le,
}
use effect_opcua.Codegen.Assemble.Sorted.{names_of, no_entry}
use effect_opcua.Codegen.Assemble.Behind.{
  Leads, here, step, Leads-trans, IsBehind, IsOrdered, IsOrdered-split, IsSettled, IsSettled-mark,
  IsSettled-push,
}

module _ (structures : List StructureDefinition) where
  record Visits (path : List String) (v v' : Visited) : Type 0 where
    pub kept : (x : String) → has x v.seen ≡ true → has x v'.seen ≡ true
    pub settled : IsSettled structures path v'

  module _ (text_le : String → String → Bool) (m : Map StructureDefinition)
      (named : (k : String) (t : StructureDefinition) → get k m ≡ some t → t.name ≡ k)
      (listed : (k : String) (t : StructureDefinition) → get k m ≡ some t → Memᴰ t structures)
      (present : (d : String)
        → Memᴰ d (names_of structures)
        → (t : StructureDefinition) × (get d m ≡ some t)) where
    -- A visit settles its structure, if all on the path lead to it.
    abbrev Visiting : ℕ → Type 0
    Visiting fuel =
        (path : List String) (s : StructureDefinition) (v v' : Visited)
        → Memᴰ s structures
        → ((p : String) → Memᴰ p path → Leads structures p s.name)
        → IsSettled structures path v
        → visit text_le m fuel s v ≡ some v'
        → Visits path v v' × (has s.name v'.seen ≡ true)

    visit_all-Visits :
        (fuel : ℕ)
        → Visiting fuel
        → (path names : List String) (v v' : Visited)
        → ((p d : String) → Memᴰ p path → Memᴰ d names → Leads structures p d)
        → IsSettled structures path v
        → visit_all text_le m (visit text_le m fuel) names v ≡ some v'
        → Visits path v v'
          × ((d : String) (t : StructureDefinition)
              → Memᴰ d names
              → get d m ≡ some t
              → has d v'.seen ≡ true)
    unfolding visit_all
    visit_all-Visits fuel ih path [] v v' leads h e = (
      subst (Visits path v) (some-injective v v' e) (record { kept = λ x k. k; settled = h }),
      λ d t n g. absurd (mem-nil n),
    )
    visit_all-Visits fuel ih path (name ∷ names) v v' leads h e =
        let tail_leads =
          λ (p d : String) (a : Memᴰ p path) (b : Memᴰ d names). leads p d a (Memᴰ.tail b) in
        elim (Option-cases (get name m)) [
          | inl missing ↦
              let (rest, seen) =
                visit_all-Visits fuel ih path names v v' tail_leads h
                  (rw (visit_all, missing) at e) in
              (
                rest,
                λ d t n g.
                    ⊎_elim
                      (λ same. absurd (no_entry (sym missing ∙ ap (λ k. get k m) (sym same) ∙ g)))
                      (λ n'. seen d t n' g) (Memᴰ.cases_cons n),
              )
          | inr (t, found) ↦ elim (Option-cases (visit text_le m fuel t v)) [
            | inl stuck ↦ absurd (no_entry (rw (visit_all, found, stuck) at e))
            | inr (u, run) ↦
                let (first, own) =
                  ih path t v u (listed name t found)
                    (λ p a.
                      subst (Leads structures p) (sym (named name t found))
                        (leads p name a (Memᴰ.head refl)))
                    h run in
                let (rest, seen) =
                  visit_all-Visits fuel ih path names u v' tail_leads first.settled
                    (rw (visit_all, found, run) at e) in
                (
                  record { kept = λ x k. rest.kept x (first.kept x k); settled = rest.settled },
                  λ d t' n g.
                      ⊎_elim
                        (λ same.
                          rest.kept d
                            (subst (λ k. has k u.seen ≡ true) (named name t found ∙ sym same) own))
                        (λ n'. seen d t' n' g) (Memᴰ.cases_cons n),
                )
          ]
        ]

    -- The path with the structure leads to each of its dependencies.
    Leads-step :
        (path : List String) (s : StructureDefinition)
        → Memᴰ s structures
        → ((p : String) → Memᴰ p path → Leads structures p s.name)
        → (p d : String) → Memᴰ p (s.name ∷ path)
        → Memᴰ d (structure_dependencies s)
        → Leads structures p d
    Leads-step path s member leads p d a b =
        ⊎_elim (λ same. step s d member (sym same) b here)
          (λ a'. Leads-trans structures (leads p a') (step s d member refl b here))
          (Memᴰ.cases_cons a)

    visit-Visits : (fuel : ℕ) → Visiting fuel
    unfolding visit
    visit-Visits zero path s v v' member leads h e = absurd (no_entry e)
    visit-Visits (suc fuel) path s v v' member leads h e =
        let marked : Visited = record v { seen = add s.name v.seen } in
        let names = sort text_le (structure_dependencies s) in
        elim (Bool-cases (has s.name v.seen)) [
          | inl old ↦
              let same : v ≡ v' = some-injective v v' (rw old at e) in
              (
                subst (Visits path v) same (record { kept = λ x k. k; settled = h }),
                subst (λ (z : Visited). has s.name z.seen ≡ true) same old,
              )
          | inr new ↦
              elim (Option-cases (visit_all text_le m (visit text_le m fuel) names marked)) [
                | inl stuck ↦ absurd (no_entry (rw (new, stuck) at e))
                | inr (u, run) ↦
                    let (deeper, seen) =
                      visit_all-Visits fuel (visit-Visits fuel) (s.name ∷ path) names marked u
                        (λ p d a b.
                          Leads-step path s member leads p d a
                            (mem-sort text_le (structure_dependencies s) b))
                        (IsSettled-mark structures path s.name v h) run in
                    let behind : IsBehind structures u.sorted s = λ d b p.
                      let (t, found) = present d p in
                      ⊎_elim inl
                        (λ a. inr (
                          ⊎_elim (λ same. subst (Leads structures d) same here) (leads d)
                            (Memᴰ.cases_cons a)))
                        (deeper.settled.seen d
                          (seen d t (sort-mem text_le (structure_dependencies s) b) found)) in
                    subst (λ (z : Visited). Visits path v z × (has s.name z.seen ≡ true))
                      (some-injective _ v' (rw (new, run) at e))
                      (
                        record {
                          kept = λ x k. deeper.kept x (ground (arith, has-add s.name x v.seen));
                          settled = IsSettled-push structures path s u deeper.settled behind;
                        },
                        deeper.kept s.name
                            (ground (arith, has-add s.name s.name v.seen, eq_refl s.name)),
                      )
              ]
        ]

    visit_structures-IsSettled :
        (fuel : ℕ) (rest : List StructureDefinition) (v v' : Visited)
        → ((s : StructureDefinition) → Memᴰ s rest → Memᴰ s structures)
        → IsSettled structures [] v
        → visit_structures text_le m fuel rest v ≡ some v'
        → IsSettled structures [] v'
    unfolding visit_structures
    visit_structures-IsSettled fuel [] v v' within h e =
        subst (IsSettled structures []) (some-injective v v' e) h
    visit_structures-IsSettled fuel (s ∷ rest) v v' within h e =
        elim (Option-cases (visit text_le m fuel s v)) [
          | inl stuck ↦ absurd (no_entry (rw (visit_structures, stuck) at e))
          | inr (u, run) ↦
              let (first, _) =
                visit-Visits fuel [] s v u (within s (Memᴰ.head refl)) (λ p a. absurd (mem-nil a)) h
                  run in
              visit_structures-IsSettled fuel rest u v' (λ z n. within z (Memᴰ.tail n))
                first.settled (rw (visit_structures, run) at e)
        ]

-- Wherever a structure stands in the result of sortStructures, each of the structures that its fields
-- refer to stands before it, or leads back to it along such references.
pub sort_structures-IsBehind :
    (locale_compare : String → String → Ordering) (text_le : String → String → Bool)
    (structures xs ys : List StructureDefinition) (s : StructureDefinition)
    → sort_structures locale_compare text_le structures ≡ xs ++ s ∷ ys
    → (d : String) → Memᴰ d (structure_dependencies s)
    → Memᴰ d (names_of structures)
    → Memᴰ d (names_of xs) ⊎ Leads structures d s.name
unfolding sort_structures get has
sort_structures-IsBehind locale_compare text_le structures xs ys s e d =
    let m = name_map structures [] in
    let start : Visited = record { sorted = []; seen = [] } in
    let by_name = λ (a b : StructureDefinition). locale_le locale_compare a.name b.name in
    let empty : IsSettled structures [] start = record {
      seen = λ x k. absurd (cc);
      ordered = tt;
    } in
    let ordered : IsOrdered structures [] (sort_structures locale_compare text_le structures) =
      elim (Option-cases
        (visit_structures text_le m (suc (length structures)) (sort by_name structures) start)) [
          | inl stuck ↦ rw stuck tt
          | inr (v, run) ↦
              rw run
                (visit_structures-IsSettled structures text_le m
                  (name-name_map structures [] (λ k t e'. absurd (no_entry e')))
                  (λ k t g.
                    ⊎_elim (λ n. n) (λ none_left. absurd (no_entry none_left))
                      (mem-name_map structures [] k t g))
                  (λ d n.
                    let (z, n', same) =
                      Memᴰ.of_map (λ (z : StructureDefinition). z.name) structures n in
                    (get-name_map structures [] d).0 z n' same)
                  (suc (length structures)) (sort by_name structures) start v
                  (λ z n. mem-sort by_name structures n) empty run).ordered
        ] in
    IsOrdered-split structures [] xs ys s (subst (IsOrdered structures []) e ordered) d

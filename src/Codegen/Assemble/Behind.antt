-- ===== src/Codegen/Assemble/Behind.antt =====
-- sortStructures: the order of its result, and its state while structures are being visited.
use mathlib.Core.List.{append_assoc, append-nil}
use mathlib.Core.List.Memᴰ
use effect_opcua.Prelude.{
  String, List, [], ◌∷◌, ◌++◌, true, ◌==◌, ◌≡◌, sym, subst, ◌⊎◌, inl, inr, ⊎_elim, Memᴰ, Bool-cases,
  arith, eq_iff,
}
use effect_opcua.Prelude.Sets.{has, add, has-add}
use effect_opcua.Codegen.Types.{StructureDefinition}
use effect_opcua.Codegen.Assemble.{Visited, structure_dependencies}
use effect_opcua.Codegen.Assemble.Sorted.{names_of, names-kept, names-last}

-- The walks along the dependencies of the structures.
pub data Leads (structures : List StructureDefinition) : String → String → Type 0 where
  here : {a : String} → Leads structures a a
  step :
      {a b : String} (s : StructureDefinition) (d : String)
      → Memᴰ s structures
      → s.name ≡ a
      → Memᴰ d (structure_dependencies s)
      → Leads structures d b
      → Leads structures a b

module _ (structures : List StructureDefinition) where
  pub Leads-trans :
      {a b c : String} → Leads structures a b → Leads structures b c → Leads structures a c
  Leads-trans here k = k
  Leads-trans (step s d m e h l) k = step s d m e h (Leads-trans l k)

  -- What a structure depends on stands among those before it, or leads back to it.
  abbrev pub IsBehind : List StructureDefinition → StructureDefinition → Type 0
  IsBehind before s =
      (d : String)
      → Memᴰ d (structure_dependencies s)
      → Memᴰ d (names_of structures)
      → Memᴰ d (names_of before) ⊎ Leads structures d s.name

  abbrev pub IsOrdered : List StructureDefinition → List StructureDefinition → Type 0
  IsOrdered before [] = Unit
  IsOrdered before (s ∷ rest) = IsBehind before s × IsOrdered (before ++ s ∷ []) rest

  IsOrdered-snoc :
      (before rest : List StructureDefinition) (s : StructureDefinition)
      → IsOrdered before rest
      → IsBehind (before ++ rest) s
      → IsOrdered before (rest ++ s ∷ [])
  IsOrdered-snoc before [] s h k = (subst (λ l. IsBehind l s) (append-nil before) k, tt)
  IsOrdered-snoc before (z ∷ rest) s (q, h) k = (
    q,
    IsOrdered-snoc (before ++ z ∷ []) rest s h
        (subst (λ l. IsBehind l s) (sym (append_assoc before (z ∷ []) rest)) k),
  )

  pub IsOrdered-split :
      (before xs ys : List StructureDefinition) (s : StructureDefinition)
      → IsOrdered before (xs ++ s ∷ ys)
      → IsBehind (before ++ xs) s
  IsOrdered-split before [] ys s (q, h) = subst (λ l. IsBehind l s) (sym (append-nil before)) q
  IsOrdered-split before (z ∷ xs) ys s (q, h) =
      subst (λ l. IsBehind l s) (append_assoc before (z ∷ []) xs)
        (IsOrdered-split (before ++ z ∷ []) xs ys s h)

  -- While the structures of `path` are being visited: what was seen is sorted in, or on the path.
  pub record IsSettled (path : List String) (v : Visited) : Type 0 where
    pub seen : (x : String) → has x v.seen ≡ true → Memᴰ x (names_of v.sorted) ⊎ Memᴰ x path
    pub ordered : IsOrdered [] v.sorted

  pub IsSettled-mark :
      (path : List String) (name : String) (v : Visited)
      → IsSettled path v
      → IsSettled (name ∷ path) (record v { seen = add name v.seen })
  IsSettled-mark path name v h = record {
    seen = λ x k. elim (Bool-cases (name == x)) [
      | inl same ↦ inr (Memᴰ.head (sym ((eq_iff name x).0 same)))
      | inr other ↦
          ⊎_elim inl (λ m. inr (Memᴰ.tail m)) (h.seen x (ground (arith, has-add name x v.seen)))
    ];
    ordered = h.ordered;
  }

  pub IsSettled-push :
      (path : List String) (s : StructureDefinition) (v : Visited)
      → IsSettled (s.name ∷ path) v
      → IsBehind v.sorted s
      → IsSettled path (record v { sorted = v.sorted ++ s ∷ [] })
  IsSettled-push path s v h behind = record {
    seen = λ x k.
        ⊎_elim (λ m. inl (names-kept x v.sorted s m))
          (λ p.
            ⊎_elim
              (λ same. inl (
                subst (λ y. Memᴰ y (names_of (v.sorted ++ s ∷ []))) (sym same)
                  (names-last v.sorted s)))
              inr (Memᴰ.cases_cons p))
          (h.seen x k);
    ordered = IsOrdered-snoc [] v.sorted s h.ordered behind;
  }

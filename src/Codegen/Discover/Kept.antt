-- ===== src/Codegen/Discover/Kept.antt =====
-- packages/codegen/src/discover.ts: the paths that the exclusion rules leave, and that addOrUpdateNode
-- keeps a node's paths among them.
use Prim.Native.Nat.{Ordering}
use effect_opcua.Prelude.{
  String, Option, none, some, List, [], ◌∷◌, ◌++◌, Bool-cases, ◌==◌, ◌≡◌, ◌≢◌, refl, subst, ◌⊎◌,
  inl, inr, arith, All, All-append, All-mem, All-of_mem, Memᴰ,
}
use effect_opcua.Prelude.Maps.{Map, get, set}
use effect_opcua.Prelude.Sort.{mem-sort}
use effect_opcua.Codegen.Types.{NodeClass}
use effect_opcua.Codegen.Discover.{ExcludeRule, prune}
use effect_opcua.Codegen.Discover.Nodes.{
  NodeDraft, NodeInput, values_of, keyed_paths, unique_paths, path_le, better_path, update_draft,
  new_draft, add_new, add_to, add_or_update_node,
}
use effect_opcua.Codegen.Discover.Walk.{TraversalItem, Walk, mode_at}

module _ (exclude : List ExcludeRule) (roots : List (List String)) where
  -- The paths that the walk may browse: those of the roots, and below a browsed path what no rule
  -- prunes.
  pub data Reaches : List String → Type 0 where
    root : {p : List String} → Memᴰ p roots → Reaches p
    below :
        {p : List String} (name : String)
        → Reaches p
        → mode_at exclude (p ++ name ∷ []) ≢ some prune
        → Reaches (p ++ name ∷ [])

  -- The paths that a node may have: those of the roots, and below a browsed path what no rule excludes.
  abbrev pub Allowed : List String → Type 0
  Allowed p =
      Memᴰ p roots
      ⊎ ((q : List String) × (name : String) × (p ≡ q ++ name ∷ [])
          × Reaches q
          × (mode_at exclude p ≡ none))

  abbrev pub HasAllowed : NodeDraft → Type 0
  HasAllowed draft = All Allowed draft.all_paths × Allowed draft.node.path

  abbrev pub IsSound : Walk → Type 0
  IsSound w =
      All (λ (p : String × NodeDraft). HasAllowed p.1) w.nodes
      × All (λ (item : TraversalItem). Reaches item.path) w.queue

module _ {V : Type 0} (P : V → Type 0) where
  abbrev AllValues : Map V → Type 0
  AllValues = All (λ (p : String × V). P p.1)

  AllValues-set : (k : String) (v : V) (m : Map V) → P v → AllValues m → AllValues (set k v m)
  unfolding set
  AllValues-set k v [] h hs = (h, tt)
  AllValues-set k v ((j, w) ∷ m) h (first, rest) = elim (Bool-cases (j == k)) [
    | inl same ↦ rw same (h, rest)
    | inr other ↦ rw other (first, AllValues-set k v m h rest)
  ]

  AllValues-get : (k : String) (v : V) (m : Map V) → get k m ≡ some v → AllValues m → P v
  unfolding get
  AllValues-get k v [] e h = cc
  AllValues-get k v ((j, w) ∷ m) e (first, rest) = elim (Bool-cases (j == k)) [
    | inl same ↦ let value : w ≡ v = ground arith in subst P value first
    | inr other ↦ AllValues-get k v m (ground arith) rest
  ]

  All-values_of : (m : Map V) → AllValues m → All P (values_of m)
  All-values_of [] h = tt
  All-values_of (p ∷ m) (first, rest) = (first, All-values_of m rest)

module _ (P : List String → Type 0) where
  AllValues-keyed_paths :
      (paths : List (List String)) (m : Map (List String))
      → All P paths
      → AllValues P m
      → AllValues P (keyed_paths paths m)
  unfolding keyed_paths
  AllValues-keyed_paths [] m h k = k
  AllValues-keyed_paths (path ∷ paths) m (first, rest) k =
      AllValues-keyed_paths paths _ rest (AllValues-set P _ path m first k)

  All-unique_paths :
      (locale_compare : String → String → Ordering) (paths : List (List String))
      → All P paths
      → All P (unique_paths locale_compare paths)
  unfolding unique_paths
  All-unique_paths locale_compare paths h =
      let values = values_of (keyed_paths paths []) in
      All-of_mem P (unique_paths locale_compare paths) (λ path m.
        All-mem P values
          (All-values_of P (keyed_paths paths []) (AllValues-keyed_paths paths [] h tt))
          (mem-sort (path_le locale_compare) values m))

module _ (locale_compare : String → String → Ordering) (exclude : List ExcludeRule)
    (roots : List (List String)) where
  HasAllowed-update_draft :
      (input : NodeInput) (existing : NodeDraft)
      → Allowed exclude roots input.path
      → HasAllowed exclude roots existing
      → HasAllowed exclude roots (update_draft locale_compare input existing)
  unfolding update_draft
  HasAllowed-update_draft input existing h (paths, best) =
      let all =
        All-unique_paths (Allowed exclude roots) locale_compare
          (existing.all_paths ++ input.path ∷ [])
          (All-append (Allowed exclude roots) existing.all_paths (input.path ∷ []) paths (h, tt)) in
      elim (Bool-cases (better_path locale_compare input existing)) [
        | inl e ↦ rw e (all, h)
        | inr e ↦ rw e (all, best)
      ]

  abbrev AllAllowed : Map NodeDraft → Type 0
  AllAllowed nodes = All (λ (p : String × NodeDraft). HasAllowed exclude roots p.1) nodes

  AllAllowed-add_new :
      (input : NodeInput) (node_class : Option NodeClass) (nodes : Map NodeDraft)
      → Allowed exclude roots input.path
      → AllAllowed nodes
      → AllAllowed (add_new locale_compare input node_class nodes)
  unfolding add_new new_draft
  AllAllowed-add_new input none nodes h all = all
  AllAllowed-add_new input (some node_class) nodes h all =
      AllValues-set (HasAllowed exclude roots) input.metadata.node_id
        (new_draft locale_compare input node_class) nodes ((h, tt), h) all

  AllAllowed-add_to :
      (input : NodeInput) (found : Option NodeDraft) (nodes : Map NodeDraft)
      → get input.metadata.node_id nodes ≡ found
      → Allowed exclude roots input.path
      → AllAllowed nodes
      → AllAllowed (add_to locale_compare input found nodes)
  unfolding add_to
  AllAllowed-add_to input none nodes e h all = AllAllowed-add_new input _ nodes h all
  AllAllowed-add_to input (some existing) nodes e h all =
      AllValues-set (HasAllowed exclude roots) input.metadata.node_id
        (update_draft locale_compare input existing) nodes
        (HasAllowed-update_draft input existing h
          (AllValues-get (HasAllowed exclude roots) input.metadata.node_id existing nodes e all))
        all

  pub AllAllowed-add_or_update_node :
      (nodes : Map NodeDraft) (input : NodeInput)
      → Allowed exclude roots input.path
      → AllAllowed nodes
      → AllAllowed (add_or_update_node locale_compare nodes input)
  unfolding add_or_update_node
  AllAllowed-add_or_update_node nodes input h all = AllAllowed-add_to input _ nodes refl h all

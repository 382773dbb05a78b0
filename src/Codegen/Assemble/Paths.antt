-- ===== src/Codegen/Assemble/Paths.antt =====
-- modelIssues of packages/codegen/src/compile/model.ts: the checks for paths that collide and for leaves
-- that stand where another path has a branch.
use mathlib.Core.List.{Nodup}
use mathlib.Core.List.Memᴰ
use effect_opcua.Prelude.{
  ℕ, zero, suc, ◌+◌, ◌-◌, ◌≤◌, ◌<◌, String, Option, none, some, List, [], ◌∷◌, ◌++◌, map, flat_map,
  length, take, Bool, false, ◌==◌, ◌≡◌, refl, sym, ap, subst, ◌∙◌, inl, inr, ⊎_elim, Memᴰ, mem-nil,
  Bool-cases, arith, eq_iff, any, any-append, ltb,
}
use effect_opcua.Prelude.Maps.{Map, get, set, get-set}
use effect_opcua.Prelude.Groups.{items, group_from, items-group_from, keys-Nodup}
use effect_opcua.Codegen.Issues.{Issue, is_error, error_issue}
use effect_opcua.Codegen.Types.{VariableDefinition}
use effect_opcua.Codegen.Names.{path_key}
use effect_opcua.Codegen.Variables.{TypeGraph}
use effect_opcua.Codegen.Assemble.{
  path_collision, keyed_paths, generated_path_collision_issues, by_path, branch_issue,
  branch_issues, branch_leaf_collision_issues, model_issues,
}

abbrev fatal : List Issue → Bool
fatal = any (λ (i : Issue). is_error i.severity)

abbrev pub key_of : VariableDefinition → String
key_of v = path_key v.generated_path

module _ (split_key : String → List String) where
  small_groups :
      (m : Map (List String)) (k : String)
      → fatal (flat_map (path_collision split_key) m) ≡ false
      → length (items k m) ≤ 1
  unfolding path_collision error_issue get
  small_groups [] k h = omega arith
  small_groups ((j, vs) ∷ m) k h = elim (Bool-cases (ltb 1 (length vs))) [
    | inl many ↦ absurd (ground arith)
    | inr few ↦ ground (arith, small_groups m k)
  ]

  keys-keyed_paths :
      (vs : List VariableDefinition)
      → map (λ (p : String × String). p.0) (keyed_paths split_key vs) ≡ map key_of vs
  keys-keyed_paths [] = refl
  keys-keyed_paths (v ∷ vs) = ap (λ l. key_of v ∷ l) (keys-keyed_paths vs)

  pub paths-Nodup :
      (vs : List VariableDefinition)
      → fatal (generated_path_collision_issues split_key vs) ≡ false
      → Nodup (map key_of vs)
  unfolding generated_path_collision_issues get
  paths-Nodup vs h = subst Nodup (keys-keyed_paths vs) (
      keys-Nodup (keyed_paths split_key vs) (λ k.
        subst (λ l. length l ≤ 1) (items-group_from [] (keyed_paths split_key vs) k)
          (small_groups (group_from [] (keyed_paths split_key vs)) k h)))

-- Every variable's path is a key of the map.
get-by_path :
    (vs : List VariableDefinition) (m : Map VariableDefinition) (k : String)
    → (Memᴰ k (map key_of vs) → (w : VariableDefinition) × (get k (by_path vs m) ≡ some w))
      × ((w : VariableDefinition)
          → get k m ≡ some w
          → (w' : VariableDefinition) × (get k (by_path vs m) ≡ some w'))
unfolding by_path
get-by_path [] m k = (λ h. absurd (mem-nil h), λ w e. (w, e))
get-by_path (v ∷ vs) m k =
    let (listed, kept) = get-by_path vs (set (key_of v) v m) k in
    (
      λ h.
          ⊎_elim (λ e. kept v (ground (arith, get-set (key_of v) k v m, eq_iff (key_of v) k)))
            listed (Memᴰ.cases_cons h),
      λ w e. elim (Bool-cases (key_of v == k)) [
        | inl same ↦ kept v (ground (arith, get-set (key_of v) k v m))
        | inr other ↦ kept w (ground (arith, get-set (key_of v) k v m))
      ],
    )

branch_issue-none :
    (v : VariableDefinition) (prefix : List String) (found : Option VariableDefinition)
    → fatal (branch_issue v prefix found) ≡ false
    → found ≡ none
unfolding branch_issue error_issue
branch_issue-none v prefix none h = refl
branch_issue-none v prefix (some w) h = absurd (ground arith)

fatal-append :
    (is js : List Issue) → fatal (is ++ js) ≡ false → (fatal is ≡ false) × (fatal js ≡ false)
fatal-append is js h = ground (arith, any-append (λ (i : Issue). is_error i.severity) is js)

abbrev prefix_issues : Map VariableDefinition → VariableDefinition → ℕ → List Issue
unfolding branch_issue
prefix_issues m v index =
    branch_issue v (take index v.generated_path) (get (path_key (take index v.generated_path)) m)

-- A look-up that raises no error at a prefix finds nothing.
branch_issues-none :
    (m : Map VariableDefinition) (v : VariableDefinition) (index rounds i : ℕ)
    → fatal (branch_issues m v index rounds) ≡ false
    → i < rounds
    → get (path_key (take (index + i) v.generated_path)) m ≡ none
unfolding branch_issues
branch_issues-none m v index zero i h lt = absurd (omega arith)
branch_issues-none m v index (suc rounds) zero h lt =
    let (first, _) =
      fatal-append (prefix_issues m v index) (branch_issues m v (suc index) rounds) h in
    let same : index ≡ index + zero = omega arith in
    subst (λ n. get (path_key (take n v.generated_path)) m ≡ none) same
      (branch_issue-none v (take index v.generated_path) _ first)
branch_issues-none m v index (suc rounds) (suc i) h lt =
    let (_, rest) =
      fatal-append (prefix_issues m v index) (branch_issues m v (suc index) rounds) h in
    let shift : suc index + i ≡ index + suc i = omega arith in
    subst (λ n. get (path_key (take n v.generated_path)) m ≡ none) shift
      (branch_issues-none m v (suc index) rounds i rest (omega arith))

fatal-flat_map {ℓ} :
    {A : Type ℓ} (f : A → List Issue) (x : A) (xs : List A)
    → fatal (flat_map f xs) ≡ false
    → Memᴰ x xs
    → fatal (f x) ≡ false
fatal-flat_map f x [] h hm = absurd (mem-nil hm)
fatal-flat_map f x (y ∷ ys) h hm =
    let (first, rest) = fatal-append (f y) (flat_map f ys) h in
    ⊎_elim (λ e. subst (λ z. fatal (f z) ≡ false) (sym e) first) (fatal-flat_map f x ys rest)
      (Memᴰ.cases_cons hm)

-- `generatedPath` identifies a variable, and no variable stands where another's path has a branch.
pub record HasFreePaths (vs : List VariableDefinition) : Type 0 where
  pub distinct : Nodup (map key_of vs)
  pub leaves :
      (v w : VariableDefinition) (n : ℕ)
      → Memᴰ v vs
      → Memᴰ w vs
      → 0 < n
      → n < length v.generated_path
      → ¬ (key_of w ≡ path_key (take n v.generated_path))

some-none {ℓ} : {A : Type ℓ} {x : A} → ¬ (some x ≡ none)
some-none e = cc

leaves-free :
    (vs : List VariableDefinition) (v w : VariableDefinition) (n : ℕ)
    → fatal (branch_leaf_collision_issues vs) ≡ false
    → Memᴰ v vs
    → Memᴰ w vs
    → 0 < n
    → n < length v.generated_path
    → ¬ (key_of w ≡ path_key (take n v.generated_path))
unfolding branch_leaf_collision_issues
leaves-free vs v w zero h hv hw pos lt e = absurd (omega arith)
leaves-free vs v w (suc i) h hv hw pos lt e =
    let free =
      branch_issues-none (by_path vs []) v 1 (length v.generated_path - 1) i
        (fatal-flat_map _ v vs h hv) (omega arith) in
    let shift : 1 + i ≡ suc i = omega arith in
    let (w', found) =
      (get-by_path vs [] (path_key (take (suc i) v.generated_path))).0
        (subst (λ k. Memᴰ k (map key_of vs)) e (Memᴰ.map key_of hw)) in
    some-none (
      sym found
      ∙ ap (λ n. get (path_key (take n v.generated_path)) (by_path vs [])) (sym shift)
      ∙ free)

-- Where modelIssues reports no error, the generated paths have pairwise distinct keys, and the key of no
-- path is that of a non-empty proper prefix of another. Nothing is said of the empty prefix.
pub model_issues-HasFreePaths :
    (split_key : String → List String) (vs : List VariableDefinition) (graph : TypeGraph)
    → fatal (model_issues split_key vs graph) ≡ false
    → HasFreePaths vs
unfolding model_issues
model_issues-HasFreePaths split_key vs graph h =
    let (own, rest) = fatal-append (generated_path_collision_issues split_key vs) _ h in
    let (branches, _) = fatal-append (branch_leaf_collision_issues vs) _ rest in
    record {
      distinct = paths-Nodup split_key vs own;
      leaves = λ v w n. leaves-free vs v w n branches;
    }

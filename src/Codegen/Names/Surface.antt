-- ===== src/Codegen/Names/Surface.antt =====
-- surfaceNodes and pathIssues of packages/codegen/src/compile/names.ts.
use Prim.Native.Char.{nul}
use Prim.Native.Nat.{Ordering}
use mathlib.Core.List.{foldl}
use effect_opcua.Prelude.{
  ℕ, suc, String, Option, none, some, List, [], ◌∷◌, ◌++◌, map, filter, flat_map, length, drop,
  get_elem?, Bool, true, false, ◌==◌, ltb, nat_eq, if◌then◌else◌,
}
use effect_opcua.Prelude.Sets.{add}
use effect_opcua.Prelude.Maps.{Map}
use effect_opcua.Prelude.Groups.{group_from}
use effect_opcua.Prelude.Sort.{sort}
use effect_opcua.Prelude.Text.{join}
use effect_opcua.Codegen.Issues.{
  Issue, error_issue, said, segment, key_candidates, path_empty_generated_key,
  path_generated_key_collision,
}
use effect_opcua.Codegen.Types.{DiscoveredNode, DiscoveredRoot, SurfaceNode}
use effect_opcua.Codegen.Names.{sanitize_pascal, path_key}

-- path.slice(0, -1)
abbrev pub init {ℓ} : {A : Type ℓ} → List A → List A
init [] = []
init (x ∷ []) = []
init (x ∷ y ∷ xs) = x ∷ init (y ∷ xs)

-- path.at(-1)
abbrev pub last {ℓ} : {A : Type ℓ} → List A → Option A
last [] = none
last (x ∷ []) = some x
last (x ∷ y ∷ xs) = last (y ∷ xs)

abbrev or_empty_text : Option String → String
or_empty_text none = ""
or_empty_text (some s) = s

unfoldable pub generate_path : List String → List String
generate_path = map (λ s. or_empty_text (sanitize_pascal s))

abbrev has_index : Option ℕ → DiscoveredRoot → Bool
has_index none root = false
has_index (some index) root = nat_eq root.root_index index

unfoldable pub find_root : Option ℕ → List DiscoveredRoot → Option DiscoveredRoot
find_root index [] = none
find_root index (root ∷ roots) = if has_index index root then some root else find_root index roots

-- root.exportPrefix ? [root.exportPrefix, ...stripped] : stripped
abbrev with_prefix : Option String → List String → List String
with_prefix none stripped = stripped
with_prefix (some prefix) stripped = if prefix == "" then stripped else prefix ∷ stripped

abbrev relative_path : List String → Option DiscoveredRoot → List String
relative_path path none = path
relative_path path (some root) = with_prefix root.export_prefix (drop (length root.path) path)

-- relativeGeneratedPath
surface_node : List DiscoveredRoot → DiscoveredNode → SurfaceNode
unfolding generate_path find_root
surface_node roots node =
    let path = relative_path node.path (find_root node.root_index roots) in
    record { node = node; path = path; generated_path = generate_path path }

abbrev is_below_root : SurfaceNode → Bool
is_below_root item = elim item.path [ [] ↦ false | _ ∷ _ ↦ true ]

module _ (locale_compare : String → String → Ordering) where
  abbrev pub locale_le : String → String → Bool
  locale_le a b = elim (locale_compare a b) [ Ordering.gt ↦ false | _ ↦ true ]

  unfoldable pub surface_nodes : List DiscoveredRoot → List DiscoveredNode → List SurfaceNode
  unfolding surface_node sort path_key
  surface_nodes roots nodes =
      sort (λ left right. locale_le (path_key left.path) (path_key right.path))
        (filter is_below_root (map (surface_node roots) nodes))

-- generatedPath.findIndex((segment) => segment === "")
unfoldable pub find_empty : ℕ → List String → Option ℕ
find_empty index [] = none
find_empty index (s ∷ path) = if s == "" then some index else find_empty (suc index) path

empty_key_issue : SurfaceNode → Option ℕ → List Issue
empty_key_issue item none = []
empty_key_issue item (some index) =
    error_issue path_empty_generated_key
      (record (said "BrowseName segment does not produce a TypeScript key") {
        path = some item.path;
        generated_path = some item.generated_path;
        node_id = some item.node.node_id;
        cause = segment (get_elem? item.path index);
      })
    ∷ []

-- The "\u0000" that joins the parent path to a key.
abbrev pub nul_text : String
nul_text = String.◌∷◌ nul String.[]

unfoldable pub group_by_parent : List SurfaceNode → Map (List SurfaceNode)
unfolding join group_from
group_by_parent items =
    group_from [] (map (λ (item : SurfaceNode). (join nul_text (init item.path), item)) items)

-- The key and the original name of a sibling: `if (!key || !original) continue`.
sibling_pair : Option String → Option String → List (String × String)
sibling_pair (some key) (some original) =
    if key == "" then [] else if original == "" then [] else (key, original) ∷ []
sibling_pair _ _ = []

abbrev sibling_pairs : List SurfaceNode → List (String × String)
unfolding sibling_pair
sibling_pairs = flat_map (λ item. sibling_pair (last item.generated_path) (last item.path))

-- new Set(candidates)
abbrev distinct : List String → List String
distinct = foldl (λ seen x. add x seen) []

abbrev first_init : (SurfaceNode → List String) → List SurfaceNode → Option (List String)
first_init path [] = none
first_init path (item ∷ _) = some (init (path item))

key_collision_issue : List SurfaceNode → String × List String → List Issue
unfolding add
key_collision_issue siblings (key, names) =
    if ltb 1 (length (distinct names))
    then error_issue path_generated_key_collision
        (record (said "Two sibling BrowseName segments generate the same TypeScript key") {
          path = first_init (λ item. item.path) siblings;
          generated_path = first_init (λ item. item.generated_path) siblings;
          cause = key_candidates key names;
        })
      ∷ []
    else []

unfoldable pub path_issues : List SurfaceNode → List Issue
unfolding empty_key_issue find_empty group_by_parent key_collision_issue group_from sibling_pair
path_issues items =
    flat_map (λ (item : SurfaceNode). empty_key_issue item (find_empty 0 item.generated_path)) items
    ++ flat_map
        (λ (group : String × List SurfaceNode).
          flat_map (key_collision_issue group.1) (group_from [] (sibling_pairs group.1)))
        (group_by_parent items)

-- ===== src/Codegen/Discover/Duplicates.antt =====
-- duplicateBrowseName of packages/codegen/src/discover.ts: when it reports nothing, no two children have
-- the same path.
use mathlib.Core.List.{Nodup}
use effect_opcua.Prelude.{◌≤◌, String, none, List, [], ◌∷◌, map, length, ◌≡◌, ap, arith}
use effect_opcua.Prelude.Maps.{Map, get}
use effect_opcua.Prelude.Groups.{group_from, items, items-group_from, keys-Nodup}
use effect_opcua.Codegen.Discover.{
  BrowseReference, named_targets, find_duplicate, duplicate_browse_name,
}

items-le-one :
    (k : String) (m : Map (List String)) → find_duplicate m ≡ none → length (items k m) ≤ 1
unfolding find_duplicate get
items-le-one k [] h = omega arith
items-le-one k ((j, candidates) ∷ m) h = ground (arith, items-le-one k m)

-- When duplicateBrowseName reports nothing, the children with a browse name have different browse names,
-- so the paths below one node differ.
pub duplicate_browse_name-Nodup :
    (references : List BrowseReference)
    → duplicate_browse_name references ≡ none
    → Nodup (map (λ (p : String × String). p.0) (named_targets references))
unfolding duplicate_browse_name get
duplicate_browse_name-Nodup references h = keys-Nodup (named_targets references) (λ k.
    let groups = group_from [] (named_targets references) in
    let small = items-le-one k groups h in
    let same = items-group_from [] (named_targets references) k in omega (arith, ap length same))

-- ===== src/Codegen/Discover.antt =====
-- packages/codegen/src/discover.ts: what the generator looks for on a server. Here are the rules that
-- exclude a path, and the choice of the children of a node.
pub mod Patterns
pub mod Duplicates
pub mod Nodes
pub mod Walk
pub mod Kept
pub mod Excluded
pub mod Invariant
mod Tests
use Prim.Native.Nat.{Ordering}
use Prim.Native.String
use effect_opcua.Prelude.{
  String, Option, none, some, List, [], ◌∷◌, ◌++◌, flat_map, filter, length, Bool, true, false, not,
  ◌&&◌, ◌||◌, ◌==◌, ltb, if◌then◌else◌,
}
use effect_opcua.Prelude.Sets.{has}
use effect_opcua.Prelude.Maps.{Map}
use effect_opcua.Prelude.Groups.{group_from}
use effect_opcua.Prelude.Sort.{sort}

-- PathPatternSegment: "**", a text, or a RegExp with what its `test` says.
pub data PathPatternSegment : Type 0 where
  any_segments : PathPatternSegment
  text_segment : String → PathPatternSegment
  reg_exp : (String → Bool) → PathPatternSegment

pub data ExcludeMode : Type 0 where
  prune omit : ExcludeMode

-- NormalizedExcludeRule
pub data ExcludeRule : Type 0 where
  path_rule : List String → ExcludeMode → ExcludeRule
  pattern_rule : List PathPatternSegment → ExcludeMode → ExcludeRule

abbrev pub mode_of : ExcludeRule → ExcludeMode
mode_of (path_rule _ mode) = mode
mode_of (pattern_rule _ mode) = mode

-- A segment that takes up one segment of the path.
abbrev pub segment_matches : PathPatternSegment → String → Bool
segment_matches any_segments segment = true
segment_matches (text_segment text) segment = text == segment
segment_matches (reg_exp test) segment = test segment

-- What "**" does with the rest of the pattern: try it here, or leave out one segment.
unfoldable pub skip_segments : (List String → Bool) → List String → Bool
skip_segments rest [] = rest []
skip_segments rest (segment ∷ path) = rest (segment ∷ path) || skip_segments rest path

match_one : PathPatternSegment → (List String → Bool) → List String → Bool
match_one pattern rest [] = false
match_one pattern rest (segment ∷ path) = segment_matches pattern segment && rest path

-- `match` at an index of the pattern and of the path, which are the rests of both.
unfoldable pub match_segment : PathPatternSegment → (List String → Bool) → List String → Bool
unfolding skip_segments match_one
match_segment any_segments rest path = skip_segments rest path
match_segment (text_segment text) rest path = match_one (text_segment text) rest path
match_segment (reg_exp test) rest path = match_one (reg_exp test) rest path

unfoldable pub match_path_pattern : List PathPatternSegment → List String → Bool
unfolding match_segment
match_path_pattern [] [] = true
match_path_pattern [] (_ ∷ _) = false
match_path_pattern (segment ∷ pattern) path =
    match_segment segment (match_path_pattern pattern) path

-- left.length === right.length, and equal segments
unfoldable pub same_path : List String → List String → Bool
same_path [] [] = true
same_path (a ∷ left) (b ∷ right) = (a == b) && same_path left right
same_path _ _ = false

unfoldable pub rule_matches : ExcludeRule → List String → Bool
unfolding same_path match_path_pattern
rule_matches (path_rule rule _) path = same_path rule path
rule_matches (pattern_rule pattern _) path = match_path_pattern pattern path

-- rules.find(...)
unfoldable pub matching_exclude : List ExcludeRule → List String → Option ExcludeRule
unfolding rule_matches
matching_exclude [] path = none
matching_exclude (rule ∷ rules) path =
    if rule_matches rule path then some rule else matching_exclude rules path

-- OpcuaBrowseReference
pub record BrowseReference : Type 0 where
  pub node_id : String
  pub reference_type_id : Option String
  pub is_forward : Option Bool
  pub browse_name : Option String
  pub node_class : Option String

abbrev text_or_empty : Option String → String
text_or_empty none = ""
text_or_empty (some s) = s

abbrev is_not_false : Option Bool → Bool
is_not_false (some false) = false
is_not_false _ = true

abbrev allowed_reference_types : List String
allowed_reference_types = "i=35" ∷ "i=46" ∷ "i=47" ∷ "i=49" ∷ []

-- The platform's string operations: localeCompare, and normalizeNamespaceZeroNodeId, which takes a
-- leading "ns=0;" off.
module _ (locale_compare : String → String → Ordering)
    (strip_namespace_zero : String → String) where
  abbrev then_le : Ordering → Bool → Bool
  then_le Ordering.lt rest = true
  then_le Ordering.eq rest = rest
  then_le Ordering.gt rest = false

  abbrev not_after : Ordering → Bool
  not_after Ordering.gt = false
  not_after _ = true

  -- referenceSort: its answer is not positive.
  reference_le : BrowseReference → BrowseReference → Bool
  reference_le left right =
      then_le (locale_compare (text_or_empty left.browse_name) (text_or_empty right.browse_name)) (
        then_le (locale_compare (text_or_empty left.node_class) (text_or_empty right.node_class))
          (not_after (locale_compare left.node_id right.node_id)))

  unfoldable pub selected_child_references : List BrowseReference → List BrowseReference
  unfolding reference_le sort has
  selected_child_references references = sort reference_le (
      filter
        (λ (r : BrowseReference).
          has (strip_namespace_zero (text_or_empty r.reference_type_id)) allowed_reference_types)
        (filter (λ (r : BrowseReference). is_not_false r.is_forward) references))

-- !name: missing or empty
abbrev pub usable_name : Option String → Option String
usable_name none = none
usable_name (some name) = if name == "" then none else some name

-- The pairs that are put into the groups.
unfoldable pub named_targets : List BrowseReference → List (String × String)
named_targets [] = []
named_targets (r ∷ references) = elim (usable_name r.browse_name) [
  | none ↦ named_targets references
  | some name ↦ (name, r.node_id) ∷ named_targets references
]

-- The loop over the groups: the first with more than one candidate.
unfoldable pub find_duplicate : Map (List String) → Option (String × List String)
find_duplicate [] = none
find_duplicate ((name, candidates) ∷ groups) =
    if ltb 1 (length candidates) then some (name, candidates) else find_duplicate groups

unfoldable pub duplicate_browse_name : List BrowseReference → Option (String × List String)
unfolding find_duplicate named_targets
duplicate_browse_name references = find_duplicate (group_from [] (named_targets references))

-- !targetNodeId
abbrev usable_id : String → Bool
usable_id id = not (id == "")

-- The id of one child, where its path is not excluded.
unfoldable pub target_of : List ExcludeRule → List String → BrowseReference → List String
unfolding matching_exclude
target_of exclude parent_path child = elim (usable_name child.browse_name) [
  | none ↦ []
  | some name ↦
      if not (usable_id child.node_id)
      then []
      else elim (matching_exclude exclude (parent_path ++ name ∷ [])) [
        | some _ ↦ []
        | none ↦ child.node_id ∷ []
      ]
]

unfoldable pub metadata_target_node_ids :
    List BrowseReference → List ExcludeRule → List String → List String
unfolding target_of
metadata_target_node_ids children exclude parent_path =
    flat_map (target_of exclude parent_path) children

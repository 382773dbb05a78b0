-- ===== src/Codegen/Discover/Excluded.antt =====
-- The walk of packages/codegen/src/discover.ts keeps to the exclusion rules: it goes below no pruned
-- path, and adds no node under an excluded one.
use effect_opcua.Prelude.{
  String, Option, none, some, List, [], ◌∷◌, ◌++◌, Bool-cases, ◌==◌, ◌&&◌, ◌≡◌, ◌≢◌, refl, sym,
  subst, ◌∙◌, inl, inr, All, All-append,
}
use effect_opcua.Prelude.Sets.{has, add}
use effect_opcua.Prelude.Maps.{Map}
use effect_opcua.Client.Effect.{Exit, succeeded, failed}
use effect_opcua.Client.Metadata.Nodes.{NodeMetadata}
use effect_opcua.Codegen.Discover.{
  ExcludeMode, prune, omit, BrowseReference, selected_child_references, duplicate_browse_name,
  usable_name, usable_id,
}
use effect_opcua.Codegen.Discover.Walk.{
  BrowseResult, references_result, non_good_status, DiscoverError, Session, Config, TraversalItem,
  Walk, mode_at, input_of, enqueue, has_class_object, reference_type_of, metadata_property_names,
  apply_mode, visit_named, visit_child, visit_children, read_child_metadata, continue_with,
  visit_browsed, visit_answer, visit_key, visit_item,
}
use effect_opcua.Codegen.Discover.Kept.{Reaches, below, IsSound, AllAllowed-add_or_update_node}

module _ (config : Config) (roots : List (List String)) where
  abbrev Sound : Walk → Type 0
  Sound = IsSound config.exclude roots

  abbrev Browsed : List String → Type 0
  Browsed = Reaches config.exclude roots

module _ (config : Config) (roots : List (List String)) (current : TraversalItem)
    (metadata : Map NodeMetadata) (reached : Reaches config.exclude roots current.path) where
  Sound-enqueue :
      (child : BrowseReference) (path : List String) (w : Walk)
      → Browsed config roots path
      → Sound config roots w
      → Sound config roots (enqueue config current metadata child path w)
  unfolding enqueue
  Sound-enqueue child path w here (nodes, queue) =
      elim (Bool-cases (has_class_object child.node_class)) [
        | inl e ↦ rw e (
          nodes,
          All-append (λ (item : TraversalItem). Browsed config roots item.path) w.queue _ queue
              (here, tt),
        )
        | inr e ↦ rw e (nodes, queue)
      ]

  -- What a rule does not prune may be browsed.
  open_below :
      (name : String) (mode : Option ExcludeMode)
      → mode_at config.exclude (current.path ++ name ∷ []) ≡ mode
      → mode ≢ some prune
      → Browsed config roots (current.path ++ name ∷ [])
  open_below name mode e other = below name reached (λ pruned. other (sym e ∙ pruned))

  Sound-apply_mode :
      (name : String) (mode : Option ExcludeMode) (m : Option NodeMetadata)
      (child : BrowseReference) (w : Walk)
      → mode_at config.exclude (current.path ++ name ∷ []) ≡ mode
      → Sound config roots w
      → Sound config roots
          (apply_mode config current metadata mode m child (current.path ++ name ∷ []) w)
  unfolding apply_mode
  Sound-apply_mode name (some prune) m child w e h = h
  Sound-apply_mode name (some omit) m child w e h =
      Sound-enqueue child (current.path ++ name ∷ []) _ (open_below name (some omit) e (λ x. cc)) h
  Sound-apply_mode name none none child w e h = h
  Sound-apply_mode name none (some m) child w e (nodes, queue) =
      let child_path = current.path ++ name ∷ [] in
      Sound-enqueue child child_path _ (open_below name none e (λ x. cc)) (
        AllAllowed-add_or_update_node config.locale_compare config.exclude roots w.nodes
            (input_of config current metadata m child_path)
            (inr (current.path, name, refl, reached, e)) nodes,
        queue,
      )

  Sound-visit_named :
      (name : String) (child : BrowseReference) (w : Walk)
      → Sound config roots w
      → Sound config roots (visit_named config current metadata name child w)
  unfolding visit_named
  Sound-visit_named name child w h =
      elim (Bool-cases (
        (reference_type_of config current metadata child == "i=46")
        && has name metadata_property_names)) [
          | inl e ↦ rw e h
          | inr e ↦ rw e (Sound-apply_mode name _ _ child _ refl h)
        ]

  Sound-visit_child :
      (name : Option String) (child : BrowseReference) (w : Walk)
      → Sound config roots w
      → Sound config roots (visit_child config current metadata name child w)
  unfolding visit_child
  Sound-visit_child none child w h = h
  Sound-visit_child (some name) child w h = elim (Bool-cases (usable_id child.node_id)) [
    | inl e ↦ rw e (Sound-visit_named name child w h)
    | inr e ↦ rw e h
  ]

  Sound-visit_children :
      (children : List BrowseReference) (w : Walk)
      → Sound config roots w
      → Sound config roots (visit_children config current metadata children w)
  unfolding visit_children
  Sound-visit_children [] w h = h
  Sound-visit_children (child ∷ children) w h =
      Sound-visit_children children _ (Sound-visit_child (usable_name child.browse_name) child w h)

module _ {Cause : Type 0} (session : Session Cause) (config : Config) where
  -- One round of the loop: the first of the queue is taken off and visited.
  pub data Steps : Walk → Walk → Type 0 where
    start : {w : Walk} → Steps w w
    next :
        {w v v' : Walk} (current : TraversalItem) (queue : List TraversalItem)
        → Steps w v
        → v.queue ≡ current ∷ queue
        → visit_item session config current (record v { queue = queue }) ≡ succeeded v'
        → Steps w v'

module _ {Cause : Type 0} (session : Session Cause) (config : Config)
    (roots : List (List String)) where
  -- A result, if there is one, is sound.
  abbrev SoundResult : Exit (DiscoverError Cause) Walk → Type 0
  SoundResult (failed e) = Unit
  SoundResult (succeeded w) = Sound config roots w

  SoundResult-continue_with :
      (current : TraversalItem) (children : List BrowseReference)
      (metadata : Exit (DiscoverError Cause) (Map NodeMetadata)) (w : Walk)
      → Browsed config roots current.path
      → Sound config roots w
      → SoundResult (continue_with session config current children metadata w)
  unfolding continue_with
  SoundResult-continue_with current children (failed e) w reached h = tt
  SoundResult-continue_with current children (succeeded metadata) w reached h =
      Sound-visit_children config roots current metadata reached children w h

  SoundResult-visit_browsed :
      (current : TraversalItem) (children : List BrowseReference)
      (duplicate : Option (String × List String)) (w : Walk)
      → Browsed config roots current.path
      → Sound config roots w
      → SoundResult (visit_browsed session config current children duplicate w)
  unfolding visit_browsed
  SoundResult-visit_browsed current children (some found) w reached h = tt
  SoundResult-visit_browsed current children none w reached h =
      SoundResult-continue_with current children
        (read_child_metadata session config children current.path) w reached h

  SoundResult-visit_answer :
      (current : TraversalItem) (answer : Exit Cause BrowseResult) (w : Walk)
      → Browsed config roots current.path
      → Sound config roots w
      → SoundResult (visit_answer session config current answer w)
  unfolding visit_answer
  SoundResult-visit_answer current (failed cause) w reached h = tt
  SoundResult-visit_answer current (succeeded non_good_status) w reached h =
      elim (Bool-cases config.fail_on_browse_failure) [ inl e ↦ rw e tt | inr e ↦ rw e h ]
  SoundResult-visit_answer current (succeeded (references_result references)) w reached h =
      SoundResult-visit_browsed current
        (selected_child_references config.locale_compare config.strip_namespace_zero references)
        (duplicate_browse_name
          (selected_child_references config.locale_compare config.strip_namespace_zero references))
        w reached h

  SoundResult-visit_item :
      (current : TraversalItem) (w : Walk)
      → Browsed config roots current.path
      → Sound config roots w
      → SoundResult (visit_item session config current w)
  unfolding visit_item
  SoundResult-visit_item current w reached h =
      elim (Bool-cases (has (visit_key session config current) w.visited_paths)) [
        | inl e ↦ rw e h
        | inr e ↦ rw e (
            SoundResult-visit_answer current (session.browse_children current.node_id)
              (record w { visited_paths = add (visit_key session config current) w.visited_paths })
              reached h)
      ]

  pub Steps-Sound :
      (w v : Walk) → Steps session config w v → Sound config roots w → Sound config roots v
  Steps-Sound w v start h = h
  Steps-Sound w v (next {v = u} current queue steps taken visited) h =
      let (nodes, items) = Steps-Sound w u steps h in
      let (reached, rest) : All (λ (item : TraversalItem). Browsed config roots item.path)
          (current ∷ queue) =
        subst (All (λ (item : TraversalItem). Browsed config roots item.path)) taken items in
      subst SoundResult visited
        (SoundResult-visit_item current (record u { queue = queue }) reached (nodes, rest))

-- ===== src/Client/Metadata/Nodes/Batches.antt =====
-- The metadata of many nodes, read in batches, is that of each node read alone.
use mathlib.Core.List.{append_assoc}
use effect_opcua.Prelude.{
  ℕ, zero, suc, ◌+◌, ◌<◌, String, List, [], ◌∷◌, ◌++◌, map, flat_map, true, nat_eq, get_elem?,
  length, length-append, ◌≡◌, refl, sym, ap, ◌∙◌, arith,
}
use effect_opcua.Prelude.Maps.{Map}
use effect_opcua.Client.Effect.{succeeded}
use effect_opcua.Client.Batch.{chunks_of, chunks_or_nil, concat}
use effect_opcua.Client.Batch.Chunks.{chunks_of-concat}
use effect_opcua.Client.Metadata.Nodes.{
  DataValue, NodeResult, Session, metadata_attributes, max_metadata_nodes_per_read, set_value,
  collect, entry_values, node_result, results_from, nodes_to_read, settle_batch,
  read_node_metadata_batch, append_results, read_batches, read_many_node_metadata, read_with,
}

module _ {A : Type 0} where
  get_elem?-append_right :
      (xs ys : List A) (i : ℕ) → get_elem? (xs ++ ys) (length xs + i) ≡ get_elem? ys i
  get_elem?-append_right [] ys i = let e : 0 + i ≡ i = omega arith in ap (get_elem? ys) e
  get_elem?-append_right (x ∷ xs) ys i =
      let e : suc (length xs) + i ≡ suc (length xs + i) = omega arith in
      ap (get_elem? (x ∷ (xs ++ ys))) e ∙ get_elem?-append_right xs ys i

  get_elem?-append_left :
      (xs ys : List A) (i : ℕ) → i < length xs → get_elem? (xs ++ ys) i ≡ get_elem? xs i
  get_elem?-append_left [] ys i h = absurd (omega arith)
  get_elem?-append_left (x ∷ xs) ys zero h = refl
  get_elem?-append_left (x ∷ xs) ys (suc i) h = get_elem?-append_left xs ys i (omega arith)

shifted :
    {A : Type 0} (vs ws : List A) (i i' j j' : ℕ)
    → i ≡ i'
    → j ≡ j'
    → get_elem? vs i' ≡ get_elem? ws j'
    → get_elem? vs i ≡ get_elem? ws j
shifted vs ws i i' j j' e f h = ap (get_elem? vs) e ∙ h ∙ sym (ap (get_elem? ws) f)

length-map : {A B : Type 0} (f : A → B) (xs : List A) → length (map f xs) ≡ length xs
length-map f [] = refl
length-map f (x ∷ xs) = ap suc (length-map f xs)

map-append : {A B : Type 0} (f : A → B) (xs ys : List A) → map f (xs ++ ys) ≡ map f xs ++ map f ys
map-append f [] ys = refl
map-append f (x ∷ xs) ys = ap (λ zs. f x ∷ zs) (map-append f xs ys)

module _ {Cause : Type 0} (session : Session Cause) where
  -- The loop reads as many values as there are attributes, from the offset on.
  collect-agree :
      (vs ws : List DataValue) (o p : ℕ) (attributes : List String) (m : Map DataValue)
      → ((i : ℕ) → i < length attributes → get_elem? vs (o + i) ≡ get_elem? ws (p + i))
      → ((collect session vs o attributes m).0 ≡ (collect session ws p attributes m).0)
        × ((collect session vs o attributes m).1 ≡ o + length attributes)
  unfolding collect
  collect-agree vs ws o p [] m same = (refl, omega arith)
  collect-agree vs ws o p (a ∷ attributes) m same =
      let here : get_elem? vs o ≡ get_elem? ws p =
        shifted vs ws o (o + 0) p (p + 0) (omega arith) (omega arith) (same 0 (omega arith)) in
      let (rest, count) =
        collect-agree vs ws (suc o) (suc p) attributes (set_value session a (get_elem? vs o) m)
          (λ i h.
            shifted vs ws (suc o + i) (o + suc i) (suc p + i) (p + suc i) (omega arith)
              (omega arith) (same (suc i) (omega arith))) in
      (
        rest ∙ ap (λ v. (collect session ws (suc p) attributes (set_value session a v m)).0) here,
        count ∙ omega arith,
      )

module _ {Cause : Type 0} (session : Session Cause) (answer : String × String → DataValue) where
  -- The answers for one node.
  abbrev pub own_values : String → List DataValue
  own_values node_id = map answer (nodes_to_read session node_id)

  -- The result for a node that is read alone.
  unfoldable pub node_alone : List String → String → NodeResult
  node_alone uris node_id =
      node_result session uris node_id (entry_values session (own_values node_id) 0).0

  entry_values-part :
      (before rest : List DataValue) (node_id : String)
      → (let values = before ++ (own_values node_id ++ rest) in
          ((entry_values session values (length before)).0
            ≡ (entry_values session (own_values node_id) 0).0)
          × ((entry_values session values (length before)).1 ≡ length before + 9))
  unfolding entry_values
  entry_values-part before rest node_id =
      let own = own_values node_id in
      collect-agree session (before ++ (own ++ rest)) own (length before) 0 metadata_attributes []
        (λ i h.
          get_elem?-append_right before (own ++ rest) i
          ∙ get_elem?-append_left own rest i (omega arith)
          ∙ ap (get_elem? own) (omega arith))

  -- The answers for many nodes.
  abbrev pub all_values : List String → List DataValue
  all_values node_ids = map answer (flat_map (nodes_to_read session) node_ids)

  results_from-alone :
      (uris : List String) (node_ids : List String) (before : List DataValue)
      → results_from session uris (before ++ all_values node_ids) (length before) node_ids
        ≡ map (node_alone uris) node_ids
  unfolding results_from node_alone
  results_from-alone uris [] before = refl
  results_from-alone uris (node_id ∷ node_ids) before =
      let values = before ++ (own_values node_id ++ all_values node_ids) in
      let (here, next) = entry_values-part before (all_values node_ids) node_id in
      let count : (entry_values session values (length before)).1
          ≡ length (before ++ own_values node_id) =
        next ∙ sym (length-append before (own_values node_id)) in
      let tail : results_from session uris values (entry_values session values (length before)).1
            node_ids
          ≡ map (node_alone uris) node_ids =
        ap (λ o. results_from session uris values o node_ids) count
        ∙ ap (λ l. results_from session uris l (length (before ++ own_values node_id)) node_ids)
            (sym (append_assoc before (own_values node_id) (all_values node_ids)))
        ∙ results_from-alone uris node_ids (before ++ own_values node_id) in
      λ i. node_result session uris node_id (here i) ∷ tail i

module _ {Cause : Type 0} (session : Session Cause) (answer : String × String → DataValue)
    (answers : (nodes : List (String × String))
      → session.read nodes ≡ succeeded (map answer nodes)) where
  batch-alone :
      (uris node_ids : List String)
      → read_node_metadata_batch session uris node_ids
        ≡ succeeded (map (node_alone session answer uris) node_ids)
  unfolding read_node_metadata_batch settle_batch
  batch-alone uris node_ids =
      let flat = flat_map (nodes_to_read session) node_ids in
      let all_there : nat_eq (length (map answer flat)) (length flat) ≡ true =
        ground (arith, length-map answer flat) in
      rw (answers flat, all_there)
        (ap succeeded (results_from-alone session answer uris node_ids []))

  batches-alone :
      (uris : List String) (batches : List (List String))
      → read_batches session uris batches
        ≡ succeeded (map (node_alone session answer uris) (concat batches))
  unfolding read_batches append_results
  batches-alone uris [] = refl
  batches-alone uris (batch ∷ batches) =
      rw (batch-alone uris batch, batches-alone uris batches)
        (ap succeeded (sym (map-append (node_alone session answer uris) batch (concat batches))))

  -- If the server answers a read with the value of every attribute in the order of the request, and the
  -- namespace array is there, then the metadata of many nodes, read in batches of fifty, is for each
  -- node, in order, the result that it gets when it is read alone.
  pub read_many-alone :
      (uris node_ids : List String)
      → read_many_node_metadata session (succeeded uris) node_ids
        ≡ succeeded (map (node_alone session answer uris) node_ids)
  unfolding read_many_node_metadata read_with
  read_many-alone uris [] = refl
  read_many-alone uris (node_id ∷ node_ids) =
      let (cs, e, joined, _) =
        chunks_of-concat (node_id ∷ node_ids) max_metadata_nodes_per_read (omega arith) in
      batches-alone uris
        (chunks_or_nil (chunks_of (node_id ∷ node_ids) max_metadata_nodes_per_read))
      ∙ ap (λ l. succeeded (map (node_alone session answer uris) l))
          (ap (λ o. concat (chunks_or_nil o)) e ∙ joined)

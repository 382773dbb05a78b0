-- ===== src/Client/Metadata/Cache/Transparent.antt =====
-- The caches of the metadata service do not show: as long as the server's answers stay the same from one
-- call of `invalidate` to the next, every request is answered as it would be without them.
use effect_opcua.Prelude.{
  All, String, some, List, [], ◌∷◌, Bool, true, false, ◌≡◌, refl, sym, ap, ◌∙◌, inl, inr,
  Bool-cases, arith, ◌==◌, eq_iff, if◌then◌else◌,
}
use effect_opcua.Prelude.Maps.{get, set, get-set}
use effect_opcua.Client.Metadata.Nodes.{NodeResult, read_many_node_metadata}
use effect_opcua.Client.Effect.{Exit, succeeded, succeed}
use effect_opcua.Client.Access.{first_denied, variable_access_capabilities}
use effect_opcua.Client.Metadata.BuiltIn.{NodeId}
use effect_opcua.Client.Metadata.Cache.{
  Answers, Caches, VariableDef, VariableMetadata, Request, namespaces_request, nodes_request,
  node_request, nodes_reply, node_reply, nodes, node, first_metadata, from_nodes, MetadataError,
  variable_request, data_type_request, Step, request, invalidation, Reply, namespaces_reply,
  variable_reply, data_type_reply, invalidated, empty_caches, ask, discover_variable_metadata,
  raw_variable_metadata, variable, invalidate, serve, serve_all,
}
use effect_opcua.Client.Metadata.Cache.Computes.{
  bind, ask_now, discover_now, variable_now, IsFaithful, Computes, Computes-and_then, Computes-ask,
  Computes-check_denied, Computes-succeed, cached, Computes-namespace_array,
  Computes-built_in_data_type, Computes-discover_variable_metadata,
}

-- `nodes` with a namespace array that is always asked for.
abbrev pub nodes_now :
    {Codec Cause : Type 0}
    → Answers Codec Cause
    → List String
    → Exit (MetadataError Cause) (List NodeResult)
nodes_now answers [] = succeeded []
nodes_now answers (node_id ∷ node_ids) = bind (ask_now answers.namespace_array) (λ uris.
    from_nodes (read_many_node_metadata answers.session (succeeded uris) (node_id ∷ node_ids)))

-- The reply to a request of a service that keeps nothing.
abbrev pub reply_now : {Codec Cause : Type 0} → Answers Codec Cause → Request Codec → Reply Cause
reply_now answers namespaces_request = namespaces_reply (ask_now answers.namespace_array)
reply_now answers (nodes_request node_ids) = nodes_reply (nodes_now answers node_ids)
reply_now answers (node_request node_id) =
    node_reply (bind (nodes_now answers (node_id ∷ [])) (first_metadata node_id))
reply_now answers (variable_request def) = variable_reply (variable_now answers def)
reply_now answers (data_type_request id) = data_type_reply (ask_now (answers.built_in id))

-- The replies of that service, where the answers may become others at an invalidation.
abbrev pub replies_now :
    {Codec Cause : Type 0} → Answers Codec Cause → List (Step Codec Cause) → List (Reply Cause)
replies_now answers [] = []
replies_now answers (request r ∷ steps) = reply_now answers r ∷ replies_now answers steps
replies_now answers (invalidation later ∷ steps) = invalidated ∷ replies_now later steps

-- The text of a node id determines its built-in data type.
abbrev pub TextDecides : {Codec Cause : Type 0} → Answers Codec Cause → Type 0
TextDecides answers = (a b : NodeId) → a.text ≡ b.text → answers.built_in a ≡ answers.built_in b

abbrev pub StepDecides : {Codec Cause : Type 0} → Step Codec Cause → Type 0
StepDecides (request r) = Unit
StepDecides (invalidation later) = TextDecides later

module _ {Codec Cause : Type 0} (answers : Answers Codec Cause) where
  IsFaithful-empty : IsFaithful answers empty_caches
  unfolding get
  IsFaithful-empty = record {
    namespaces = λ v e. cc;
    variables = λ k v e. cc;
    built_ins = λ id v e. cc;
  }

  variables-set :
      (node_id : String) (v : VariableMetadata) (t : Caches)
      → discover_now answers node_id ≡ succeeded v
      → IsFaithful answers t
      → (k : String) (w : VariableMetadata) → get k (set node_id v t.variable_cache) ≡ some w
      → discover_now answers k ≡ succeeded w
  variables-set node_id v t e kept k w f = elim (Bool-cases (node_id == k)) [
    | inl same ↦
        let here : discover_now answers k ≡ discover_now answers node_id =
          ap (discover_now answers) (sym ((eq_iff node_id k).0 same)) in
        let value : v ≡ w = ground (arith, get-set node_id k v t.variable_cache) in
        here ∙ e ∙ ap succeeded value
    | inr differ ↦ kept.variables k w (ground (arith, get-set node_id k v t.variable_cache))
  ]

module _ {Codec Cause : Type 0} (answers : Answers Codec Cause)
    (text_decides : (a b : NodeId)
      → a.text ≡ b.text
      → answers.built_in a ≡ answers.built_in b) where
  Computes-nodes :
      (node_ids : List String)
      → Computes answers (nodes answers node_ids) (nodes_now answers node_ids)
  unfolding nodes
  Computes-nodes [] = Computes-succeed answers []
  Computes-nodes (node_id ∷ node_ids) =
      Computes-and_then answers _ _ _ _ (Computes-namespace_array answers)
        (λ uris s faithful. (refl, faithful))

  Computes-node :
      (node_id : String)
      → Computes answers
          (node answers node_id)
          (bind (nodes_now answers (node_id ∷ [])) (first_metadata node_id))
  unfolding node
  Computes-node node_id =
      Computes-and_then answers (nodes answers (node_id ∷ [])) _ _ _ (Computes-nodes (node_id ∷ []))
        (λ results s faithful. (refl, faithful))

  Computes-raw_variable_metadata :
      (node_id : String)
      → Computes answers (raw_variable_metadata answers node_id) (discover_now answers node_id)
  unfolding raw_variable_metadata
  Computes-raw_variable_metadata node_id s faithful =
      cached answers (get node_id s.variable_cache)
        (λ v t. record t { variable_cache = set node_id v t.variable_cache })
        (discover_variable_metadata answers node_id) (discover_now answers node_id)
        (faithful.variables node_id)
        (λ v t e kept. record {
          namespaces = kept.namespaces;
          variables = variables-set answers node_id v t e kept;
          built_ins = kept.built_ins;
        })
        (Computes-discover_variable_metadata answers text_decides node_id) s faithful

  Computes-initialize :
      (needed : Bool)
      → Computes answers
          (if needed then ask answers.ensure_initialized else succeed tt)
          (if needed then ask_now answers.ensure_initialized else succeeded tt)
  Computes-initialize true = Computes-ask answers answers.ensure_initialized
  Computes-initialize false = Computes-succeed answers tt

  Computes-variable :
      (def : VariableDef Codec) → Computes answers (variable answers def) (variable_now answers def)
  unfolding variable variable_now
  Computes-variable def =
      Computes-and_then answers _ _ _ _ (Computes-raw_variable_metadata def.node_id) (λ metadata.
        Computes-and_then answers _ _ _ _
          (Computes-check_denied answers (
            first_denied answers.flags def.node_id metadata.access_level metadata.user_access_level
              (variable_access_capabilities def.access)))
          (λ _.
            Computes-and_then answers _ _ _ _
              (Computes-initialize (answers.requires_structure_runtime def.codec))
              (λ _.
                Computes-and_then answers _ _ _ _
                  (Computes-ask answers (answers.validate_metadata def.codec metadata))
                  (λ _. Computes-succeed answers metadata))))

  serve-reply_now :
      (r : Request Codec) (s : Caches)
      → IsFaithful answers s
      → ((serve answers r s).0 ≡ reply_now answers r) × IsFaithful answers (serve answers r s).1
  unfolding serve
  serve-reply_now namespaces_request s h =
      let (e, kept) = Computes-namespace_array answers s h in (ap namespaces_reply e, kept)
  serve-reply_now (nodes_request node_ids) s h =
      let (e, kept) = Computes-nodes node_ids s h in (ap nodes_reply e, kept)
  serve-reply_now (node_request node_id) s h =
      let (e, kept) = Computes-node node_id s h in (ap node_reply e, kept)
  serve-reply_now (variable_request def) s h =
      let (e, kept) = Computes-variable def s h in (ap variable_reply e, kept)
  serve-reply_now (data_type_request id) s h =
      let (e, kept) = Computes-built_in_data_type answers text_decides id s h in
      (ap data_type_reply e, kept)

module _ {Codec Cause : Type 0} where
  serve_all-from :
      (answers : Answers Codec Cause) (steps : List (Step Codec Cause)) (s : Caches)
      → TextDecides answers
      → All StepDecides steps
      → IsFaithful answers s
      → serve_all answers steps s ≡ replies_now answers steps
  unfolding serve_all invalidate
  serve_all-from answers [] s decides later h = refl
  serve_all-from answers (request r ∷ steps) s decides (_, later) h =
      let (e, kept) = serve-reply_now answers decides r s h in
      let rest = serve_all-from answers steps (serve answers r s).1 decides later kept in
      λ i. e i ∷ rest i
  serve_all-from answers (invalidation next ∷ steps) s decides (decides', later) h =
      ap (λ rest. invalidated ∷ rest)
        (serve_all-from next steps empty_caches decides' later (IsFaithful-empty next))

  -- If the server's answers stay the same from one call of `invalidate` to the next, and the text of a
  -- node id always determines its built-in data type, then the metadata service, from empty caches on, answers every
  -- sequence of requests for the namespace array, for nodes, for variables and for built-in data types, with calls
  -- of `invalidate` among them at each of which the server's answers may become any others, as a
  -- service that caches nothing and always asks the server would answer each of them, failures included.
  pub serve_all-replies_now :
      (answers : Answers Codec Cause) (steps : List (Step Codec Cause))
      → TextDecides answers
      → All StepDecides steps
      → serve_all answers steps empty_caches ≡ replies_now answers steps
  serve_all-replies_now answers steps decides later =
      serve_all-from answers steps empty_caches decides later (IsFaithful-empty answers)

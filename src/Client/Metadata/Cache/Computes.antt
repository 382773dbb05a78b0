-- ===== src/Client/Metadata/Cache/Computes.antt =====
-- The metadata service without its caches, and that its steps give the same result with them, as long
-- as the server's answers stay the same.
use effect_opcua.Prelude.{
  ℕ, String, Option, none, some, List, ◌≡◌, refl, sym, ap, ◌∙◌, inl, inr, Bool-cases, arith, ◌==◌,
  eq_iff, if◌then◌else◌,
}
use effect_opcua.Prelude.Maps.{get, set, get-set}
use effect_opcua.Client.Effect.{Exit, succeeded, failed, Effect, succeed, resume, and_then}
use effect_opcua.Client.Access.{AccessDenied, first_denied, variable_access_capabilities}
use effect_opcua.Client.Metadata.BuiltIn.{NodeId}
use effect_opcua.Client.Metadata.Cache.{
  Answers, Caches, VariableDef, VariableMetadata, MetadataError, service, unreadable, access_denied,
  good_value, ask, required, cached_or, check_denied, namespace_array, built_in_data_type,
  variable_metadata_from_raw, discover_variable_metadata,
}

-- The requests without caches: answers that fail or give a value.
abbrev pub bind : {E A B : Type 0} → Exit E A → (A → Exit E B) → Exit E B
bind (succeeded a) next = next a
bind (failed e) next = failed e

abbrev pub ask_now : {Cause A : Type 0} → Exit Cause A → Exit (MetadataError Cause) A
ask_now (succeeded a) = succeeded a
ask_now (failed cause) = failed (service cause)

abbrev pub required_now :
    {Cause A : Type 0} → String → String → Option A → Exit (MetadataError Cause) A
required_now operation text none = failed (unreadable operation text)
required_now operation text (some a) = succeeded a

abbrev pub permit : {Cause : Type 0} → Option AccessDenied → Exit (MetadataError Cause) Unit
permit none = succeeded tt
permit (some error) = failed (access_denied error)

module _ {Codec Cause : Type 0} (answers : Answers Codec Cause) where
  abbrev pub discover_now : String → Exit (MetadataError Cause) VariableMetadata
  discover_now node_id = bind (ask_now (answers.read_variable node_id)) (λ a.
      bind (required_now "metadata.variable" "DataType is unreadable" (good_value a.data_type))
        (λ data_type.
          bind
            (required_now "metadata.variable" "ValueRank is unreadable" (good_value a.value_rank))
            (λ rank.
              bind
                (required_now "metadata.variable" "AccessLevel is unreadable"
                  (good_value a.access_level))
                (λ level. bind (ask_now (answers.built_in data_type)) (λ built_in.
                  succeeded (
                    variable_metadata_from_raw answers node_id a data_type built_in rank level))))))

  unfoldable pub variable_now : VariableDef Codec → Exit (MetadataError Cause) VariableMetadata
  variable_now def = bind (discover_now def.node_id) (λ metadata.
      bind
        (permit (
          first_denied answers.flags def.node_id metadata.access_level metadata.user_access_level
            (variable_access_capabilities def.access)))
        (λ _.
          bind
            (if answers.requires_structure_runtime def.codec
              then ask_now answers.ensure_initialized
              else succeeded tt)
            (λ _.
              bind (ask_now (answers.validate_metadata def.codec metadata))
                (λ _. succeeded metadata))))

  -- Whatever is cached is what the server says.
  pub record IsFaithful (s : Caches) : Type 0 where
    pub namespaces :
        (v : List String) → s.namespace_array_cache ≡ some v → answers.namespace_array ≡ succeeded v
    pub variables :
        (k : String) (v : VariableMetadata)
        → get k s.variable_cache ≡ some v
        → discover_now k ≡ succeeded v
    pub built_ins :
        (id : NodeId) (v : ℕ)
        → get id.text s.built_in_data_type_cache ≡ some v
        → answers.built_in id ≡ succeeded v

  -- From faithful caches the program gives the result, and leaves them faithful.
  abbrev pub Computes :
      {A : Type 0} → Effect Caches (MetadataError Cause) A → Exit (MetadataError Cause) A → Type 0
  Computes program r = (s : Caches) → IsFaithful s → ((program s).0 ≡ r) × IsFaithful (program s).1

module _ {Codec Cause : Type 0} (answers : Answers Codec Cause) where
  Computes-resume :
      {A B : Type 0} (next : A → Effect Caches (MetadataError Cause) B)
      (after : A → Exit (MetadataError Cause) B) (r : Exit (MetadataError Cause) A × Caches)
      → ((a : A) → Computes answers (next a) (after a))
      → IsFaithful answers r.1
      → ((resume next r).0 ≡ bind r.0 after) × IsFaithful answers (resume next r).1
  unfolding resume
  Computes-resume next after (succeeded a, s) h faithful = h a s faithful
  Computes-resume next after (failed e, s) h faithful = (refl, faithful)

  pub Computes-and_then :
      {A B : Type 0} (program : Effect Caches (MetadataError Cause) A)
      (r : Exit (MetadataError Cause) A) (next : A → Effect Caches (MetadataError Cause) B)
      (after : A → Exit (MetadataError Cause) B)
      → Computes answers program r
      → ((a : A) → Computes answers (next a) (after a))
      → Computes answers (and_then program next) (bind r after)
  unfolding and_then
  Computes-and_then program r next after h k s faithful =
      let (same, kept) = h s faithful in
      let (result, still) = Computes-resume next after (program s) k kept in
      (result ∙ ap (λ x. bind x after) same, still)

  pub Computes-ask :
      {A : Type 0} (answer : Exit Cause A) → Computes answers (ask answer) (ask_now answer)
  unfolding ask
  Computes-ask (succeeded a) s faithful = (refl, faithful)
  Computes-ask (failed cause) s faithful = (refl, faithful)

  Computes-required :
      {A : Type 0} (operation text : String) (o : Option A)
      → Computes answers (required operation text o) (required_now operation text o)
  unfolding required
  Computes-required operation text none s faithful = (refl, faithful)
  Computes-required operation text (some a) s faithful = (refl, faithful)

  pub Computes-check_denied :
      (o : Option AccessDenied) → Computes answers (check_denied o) (permit o)
  unfolding check_denied
  Computes-check_denied none s faithful = (refl, faithful)
  Computes-check_denied (some error) s faithful = (refl, faithful)

  pub Computes-succeed : {A : Type 0} (a : A) → Computes answers (succeed a) (succeeded a)
  Computes-succeed a s faithful = (refl, faithful)

  -- A cached value is returned only if it is the result, and stored only if it is.
  stored :
      {A : Type 0} (store : A → Caches → Caches) (r : Exit (MetadataError Cause) A)
      (given : Exit (MetadataError Cause) A × Caches)
      → ((a : A) (t : Caches)
          → r ≡ succeeded a
          → IsFaithful answers t
          → IsFaithful answers (store a t))
      → given.0 ≡ r
      → IsFaithful answers given.1
      → (let after = resume (λ a t. (succeeded a, store a t)) given in
          (after.0 ≡ r) × IsFaithful answers after.1)
  unfolding resume
  stored store r (succeeded a, t) keeps same faithful = (same, keeps a t (sym same) faithful)
  stored store r (failed e, t) keeps same faithful = (same, faithful)

  pub cached :
      {A : Type 0} (o : Option A) (store : A → Caches → Caches)
      (program : Effect Caches (MetadataError Cause) A) (r : Exit (MetadataError Cause) A)
      → ((a : A) → o ≡ some a → r ≡ succeeded a)
      → ((a : A) (t : Caches)
          → r ≡ succeeded a
          → IsFaithful answers t
          → IsFaithful answers (store a t))
      → Computes answers program r
      → (s : Caches) → IsFaithful answers s
      → (let after = cached_or o store program s in (after.0 ≡ r) × IsFaithful answers after.1)
  unfolding cached_or and_then
  cached (some a) store program r hit keeps computes s faithful = (sym (hit a refl), faithful)
  cached none store program r hit keeps computes s faithful =
      let (same, kept) = computes s faithful in stored store r (program s) keeps same kept

  ask_now_succeeded :
      {A : Type 0} (o : Exit Cause A) (a : A) → ask_now o ≡ succeeded a → o ≡ succeeded a
  ask_now_succeeded (succeeded b) a e = cc
  ask_now_succeeded (failed c) a e = cc

  pub Computes-namespace_array :
      Computes answers (namespace_array answers) (ask_now answers.namespace_array)
  unfolding namespace_array
  Computes-namespace_array s faithful =
      cached s.namespace_array_cache (λ v t. record t { namespace_array_cache = some v })
        (ask answers.namespace_array) (ask_now answers.namespace_array)
        (λ v e. ap ask_now (faithful.namespaces v e))
        (λ v t e kept. record {
          namespaces = λ w f. (let now = ask_now_succeeded answers.namespace_array v e in cc);
          variables = kept.variables;
          built_ins = kept.built_ins;
        })
        (Computes-ask answers.namespace_array) s faithful

  module _
      (text_decides : (a b : NodeId)
        → a.text ≡ b.text
        → answers.built_in a ≡ answers.built_in b) where
    built_ins-set :
        (id : NodeId) (v : ℕ) (t : Caches)
        → answers.built_in id ≡ succeeded v
        → IsFaithful answers t
        → (other : NodeId) (w : ℕ)
        → get other.text (set id.text v t.built_in_data_type_cache) ≡ some w
        → answers.built_in other ≡ succeeded w
    built_ins-set id v t e kept other w f = elim (Bool-cases (id.text == other.text)) [
      | inl same ↦
          let here : answers.built_in other ≡ answers.built_in id =
            text_decides other id (sym ((eq_iff id.text other.text).0 same)) in
          let value : v ≡ w =
            ground (arith, get-set id.text other.text v t.built_in_data_type_cache) in
          cc
      | inr differ ↦
          kept.built_ins other w
            (ground (arith, get-set id.text other.text v t.built_in_data_type_cache))
    ]

    pub Computes-built_in_data_type :
        (id : NodeId)
        → Computes answers (built_in_data_type answers id) (ask_now (answers.built_in id))
    unfolding built_in_data_type
    Computes-built_in_data_type id s faithful =
        cached (get id.text s.built_in_data_type_cache)
          (λ v t. record t { built_in_data_type_cache = set id.text v t.built_in_data_type_cache })
          (ask (answers.built_in id)) (ask_now (answers.built_in id))
          (λ v e. ap ask_now (faithful.built_ins id v e))
          (λ v t e kept. record {
            namespaces = kept.namespaces;
            variables = kept.variables;
            built_ins = built_ins-set id v t (ask_now_succeeded (answers.built_in id) v e) kept;
          })
          (Computes-ask (answers.built_in id)) s faithful

    pub Computes-discover_variable_metadata :
        (node_id : String)
        → Computes answers
            (discover_variable_metadata answers node_id)
            (discover_now answers node_id)
    unfolding discover_variable_metadata
    Computes-discover_variable_metadata node_id =
        Computes-and_then (ask (answers.read_variable node_id))
          (ask_now (answers.read_variable node_id)) _ _
          (Computes-ask (answers.read_variable node_id))
          (λ a.
            Computes-and_then _ _ _ _
              (Computes-required "metadata.variable" "DataType is unreadable"
                (good_value a.data_type))
              (λ data_type.
                Computes-and_then _ _ _ _
                  (Computes-required "metadata.variable" "ValueRank is unreadable"
                    (good_value a.value_rank))
                  (λ rank.
                    Computes-and_then _ _ _ _
                      (Computes-required "metadata.variable" "AccessLevel is unreadable"
                        (good_value a.access_level))
                      (λ level.
                        Computes-and_then _ _ _ _ (Computes-built_in_data_type data_type)
                          (λ built_in. Computes-succeed (
                            variable_metadata_from_raw answers node_id a data_type built_in rank
                              level))))))

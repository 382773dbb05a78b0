-- ===== src/Client/Batch/Operations/Preflight.antt =====
-- The preflight of writeManyWithState: it changes nothing, fails where a variable's metadata are
-- refused, and prepares every entry.
use mathlib.Core.List.Memᴰ
use effect_opcua.Prelude.{Option, none, some, List, [], ◌∷◌, ◌≡◌, ap, subst, ⊎_elim, Memᴰ, mem-nil}
use effect_opcua.Client.Effect.{
  succeeded, Effect, succeed, and_then, widen, succeeded-and_then, succeeded-injective,
}
use effect_opcua.Client.Effect.Keeping.{
  Keeps, FailsKeeping, FailsKeeping-first, FailsKeeping-next, Keeps-next, Keeps-widen,
  FailsKeeping-widen,
}
use effect_opcua.Client.Access.{VariableAccess}
use effect_opcua.Client.Metadata.Cache.{VariableMetadata}
use effect_opcua.Client.Batch.Keyed.{ConfigurationError}
use effect_opcua.Client.Batch.Options.{
  OptionsValue, ServiceValue, fail_with, service_options, options_shape_error,
  service_options_error, service_keys, first_limit, limit_in, fallback_of, limits_of,
  normalize_write_many_options,
}
use effect_opcua.Client.Batch.Operations.{
  ReadyEntry, WriteEntry, metadata_error, SessionState, write_preflight,
}
use effect_opcua.Client.Batch.Operations.Refused.{OperationError}
use effect_opcua.Client.Variable.{VariableDef}
use effect_opcua.Client.Variable.Write.{CodecMetadata}

module _ {World E : Type 0} (configuration_error : ConfigurationError → E)
    (I : World → Type 0) where
  -- Three checks, and then a result: the world is never changed.
  Keeps-checks :
      {A B : Type 0} (a b c : Option ConfigurationError) (x : A) (f : A → B)
      → Keeps {E = E} I (
          and_then (fail_with configuration_error a) (λ _.
            and_then
              (and_then
                (fail_with configuration_error b)
                (λ _. and_then (fail_with configuration_error c) (λ _. succeed x)))
              (λ y. succeed (f y))))
  unfolding and_then
  Keeps-checks (some a) b c x f w i = i
  Keeps-checks none (some b) c x f w i = i
  Keeps-checks none none (some c) x f w i = i
  Keeps-checks none none none x f w i = i

  pub Keeps-normalize_write_many_options :
      (options : OptionsValue) (defaults : ServiceValue)
      → Keeps {E = E} I (normalize_write_many_options configuration_error options defaults)
  unfolding normalize_write_many_options
  Keeps-normalize_write_many_options options defaults =
      Keeps-checks
        (options_shape_error "writeMany.options" options
          ("service" ∷ "serviceLimitsOverrides" ∷ []))
        (service_options_error "OpcuaSession.batching.write" defaults service_keys)
        (service_options_error "writeMany.options.service" (service_options options) service_keys)
        (λ key.
          first_limit (limit_in (service_options options) key) (limit_in defaults key)
            (fallback_of 250 key))
        limits_of

module _ {World Cause Codec Payload DecodeError A Value Encoded EncodeError Denied : Type 0}
    (state : SessionState World Cause Codec Payload DecodeError A Value Encoded EncodeError Denied)
    (I : World → Type 0)
    (asks : (access : VariableAccess) (def : VariableDef Codec)
      → Keeps I (state.metadata access def))
    (initializes : Keeps I state.writes.ensure_initialized)
    (encodes : (codec : Codec) (value : Value) (metadata : CodecMetadata)
      → Keeps I (state.writes.encode codec value metadata)) where
  abbrev ask : WriteEntry Codec Value → Effect World (OperationError state I) VariableMetadata
  ask entry = widen metadata_error (state.metadata entry.normalized.access entry.normalized.def)

  Keeps-ask : (entry : WriteEntry Codec Value) → Keeps I (ask entry)
  Keeps-ask entry =
      Keeps-widen I metadata_error (state.metadata entry.normalized.access entry.normalized.def)
        (asks entry.normalized.access entry.normalized.def)

  abbrev pub ready_of : WriteEntry Codec Value → VariableMetadata → ReadyEntry Codec Value
  ready_of entry metadata = record {
    key = entry.key;
    index = entry.index;
    normalized = record {
      def = entry.normalized.def;
      metadata = metadata;
      value = entry.normalized.value;
      raw_node_id = entry.normalized.raw_node_id;
    };
  }

  pub write_preflight-Keeps :
      (entries : List (WriteEntry Codec Value)) → Keeps I (write_preflight state entries)
  unfolding write_preflight
  write_preflight-Keeps [] w i = i
  write_preflight-Keeps (entry ∷ entries) w i =
      Keeps-next I (ask entry) _ (Keeps-ask entry)
        (λ metadata.
          Keeps-next I (write_preflight state entries)
            (λ ready. succeed (ready_of entry metadata ∷ ready)) (write_preflight-Keeps entries)
            (λ _ v k. k))
        w i

  pub write_preflight-FailsKeeping :
      (bad : WriteEntry Codec Value)
      → ((v : World)
          → I v
          → FailsKeeping I (state.metadata bad.normalized.access bad.normalized.def) v)
      → (entries : List (WriteEntry Codec Value)) (w : World) → Memᴰ bad entries
      → I w
      → FailsKeeping I (write_preflight state entries) w
  unfolding write_preflight
  write_preflight-FailsKeeping bad fails [] w m i = absurd (mem-nil m)
  write_preflight-FailsKeeping bad fails (entry ∷ entries) w m i =
      ⊎_elim
        (λ here. FailsKeeping-first I (ask entry) _ w (
          subst (λ e. FailsKeeping I (ask e) w) here
            (FailsKeeping-widen I metadata_error
              (state.metadata bad.normalized.access bad.normalized.def) w (fails w i))))
        (λ n.
          FailsKeeping-next I (ask entry) _ w (Keeps-ask entry)
            (λ metadata v _ j.
              FailsKeeping-first I (write_preflight state entries) _ v
                (write_preflight-FailsKeeping bad fails entries v n j))
            i)
        (Memᴰ.cases_cons m)

  -- Every entry is prepared, with metadata that were given for it.
  pub write_preflight-Holds :
      (entries : List (WriteEntry Codec Value)) (w v : World)
      (ready : List (ReadyEntry Codec Value))
      → write_preflight state entries w ≡ (succeeded ready, v)
      → (entry : WriteEntry Codec Value) → Memᴰ entry entries
      → (metadata : VariableMetadata) × Memᴰ (ready_of entry metadata) ready
  unfolding write_preflight
  write_preflight-Holds [] w v ready h entry m = absurd (mem-nil m)
  write_preflight-Holds (e ∷ entries) w v ready h entry m =
      let (metadata, u, asked, rest) = succeeded-and_then (ask e) _ w v ready h in
      let (others, x, run, last) =
        succeeded-and_then (write_preflight state entries)
          (λ ready. succeed (ready_of e metadata ∷ ready)) u v ready rest in
      subst (λ l. (metadata : VariableMetadata) × Memᴰ (ready_of entry metadata) l)
        (succeeded-injective last)
        (⊎_elim (λ here. (metadata, Memᴰ.head (ap (λ y. ready_of y metadata) here)))
          (λ later.
            let (metadata', member) = write_preflight-Holds entries u x others run entry later in
            (metadata', Memᴰ.tail member))
          (Memᴰ.cases_cons m))

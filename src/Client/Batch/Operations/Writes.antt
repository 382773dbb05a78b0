-- ===== src/Client/Batch/Operations/Writes.antt =====
-- writeManyWithState: one item that cannot be written stops the others too, before the first request.
use mathlib.Core.List.Memᴰ
use effect_opcua.Prelude.{String, List, [], ◌∷◌, map, sym, subst, Memᴰ, mem-nil}
use effect_opcua.Prelude.Maps.{Map}
use effect_opcua.Client.Effect.{Effect, and_then, widen}
use effect_opcua.Client.Effect.Keeping.{
  Keeps, FailsKeeping, FailsKeeping-first, FailsKeeping-next, FailsKeeping-widen,
}
use effect_opcua.Client.Values.{StatusCode}
use effect_opcua.Client.Access.{VariableAccess}
use effect_opcua.Client.Metadata.Cache.{VariableMetadata}
use effect_opcua.Client.Batch.{ForEach}
use effect_opcua.Client.Batch.Keyed.{
  plain_record, normalize_keyed_record, validated, ready_entries, run_entries,
  validate_unique_targets,
}
use effect_opcua.Client.Batch.Keyed.Targets.{Keeps-validate_unique_targets}
use effect_opcua.Client.Batch.Options.{OptionsValue, ServiceLimits, normalize_write_many_options}
use effect_opcua.Client.Batch.Operations.{
  ReadyEntry, WriteEntry, configuration, writing, variable_def, WriteInput, write_pair,
  SessionState, write_preflight, write_many_spec, write_many_with_state, defaults_of,
  batch_options_of,
}
use effect_opcua.Client.Batch.Operations.Refused.{
  IsHopeless, refused, denied, unencodable, OperationError, Holds, normalized_from,
  normalize_from-Keeps, normalize_from-FailsKeeping, normalize_from-Holds,
}
use effect_opcua.Client.Variable.{VariableDef}
use effect_opcua.Client.Variable.Write.{
  PreparedWriteVariable, WriteValue, WriteResult, WriteError, CodecMetadata, codec_metadata,
  write_prepared_variables,
}
use effect_opcua.Client.Variable.Write.Unencodable.{write_prepared_variables-FailsKeeping}
use effect_opcua.Client.Batch.Operations.Preflight.{
  Keeps-normalize_write_many_options, ready_of, write_preflight-Keeps, write_preflight-FailsKeeping,
  write_preflight-Holds,
}

module _ {World Cause Codec Payload DecodeError A Value Encoded EncodeError Denied : Type 0}
    (state : SessionState World Cause Codec Payload DecodeError A Value Encoded EncodeError Denied)
    (I : World → Type 0)
    (asks : (access : VariableAccess) (def : VariableDef Codec)
      → Keeps I (state.metadata access def))
    (initializes : Keeps I state.writes.ensure_initialized)
    (encodes : (codec : Codec) (value : Value) (metadata : CodecMetadata)
      → Keeps I (state.writes.encode codec value metadata)) where
  module _
      (for_each : ForEach World
        (WriteError Cause EncodeError)
        (List (WriteValue Encoded))
        (List StatusCode)) where
    abbrev prepared : List (ReadyEntry Codec Value) → List (PreparedWriteVariable Codec Value)
    prepared = map (λ (r : ReadyEntry Codec Value). r.normalized)

    -- A prepared value that cannot be encoded.
    execute-FailsKeeping :
        (bad : ReadyEntry Codec Value)
        → ((v : World)
            → I v
            → FailsKeeping I
                (state.writes.encode bad.normalized.def.codec bad.normalized.value
                  (codec_metadata bad.normalized.metadata))
                v)
        → (ready : List (ReadyEntry Codec Value)) (options : ServiceLimits) (w : World)
        → Memᴰ bad ready
        → I w
        → FailsKeeping {E = OperationError state I} I
            (widen writing (
              write_prepared_variables state.writes for_each
                (prepared ready)
                (batch_options_of options)))
            w
    execute-FailsKeeping bad fails ready options w m i =
        FailsKeeping-widen I writing
          (write_prepared_variables state.writes for_each (prepared ready)
            (batch_options_of options))
          w
          (write_prepared_variables-FailsKeeping state.writes I for_each initializes encodes
            bad.normalized fails (prepared ready) (batch_options_of options) w
            (Memᴰ.map (λ (r : ReadyEntry Codec Value). r.normalized) m) i)

    abbrev DeniedTo : WriteInput Codec Value → Type 0
    DeniedTo (write_pair (variable_def access def) value) =
        (v : World) → I v → FailsKeeping I (state.metadata access def) v
    DeniedTo _ = Unit

    abbrev UnencodableTo : WriteInput Codec Value → Type 0
    UnencodableTo (write_pair (variable_def access def) value) =
        (metadata : VariableMetadata) (v : World)
        → I v
        → FailsKeeping I (state.writes.encode def.codec value (codec_metadata metadata)) v
    UnencodableTo _ = Unit

    run_entries-denied :
        (input : WriteInput Codec Value) (entry : WriteEntry Codec Value)
        (entries : List (WriteEntry Codec Value)) (options : ServiceLimits) (w : World)
        → DeniedTo input
        → Holds state I input entry.normalized
        → Memᴰ entry entries
        → I w
        → FailsKeeping I
            (run_entries configuration (write_many_spec state for_each) entries options)
            w
    unfolding run_entries ready_entries
    run_entries-denied input entry [] options w fails holds m i = absurd (mem-nil m)
    run_entries-denied input entry (e ∷ entries) options w fails holds m i =
        FailsKeeping-first I (write_preflight state (e ∷ entries)) _ w (
          write_preflight-FailsKeeping state I asks initializes encodes entry
            (subst DeniedTo holds fails) (e ∷ entries) w m i)

    run_entries-unencodable :
        (input : WriteInput Codec Value) (entry : WriteEntry Codec Value)
        (entries : List (WriteEntry Codec Value)) (options : ServiceLimits) (w : World)
        → UnencodableTo input
        → Holds state I input entry.normalized
        → Memᴰ entry entries
        → I w
        → FailsKeeping I
            (run_entries configuration (write_many_spec state for_each) entries options)
            w
    unfolding run_entries ready_entries
    run_entries-unencodable input entry [] options w fails holds m i = absurd (mem-nil m)
    run_entries-unencodable input entry (e ∷ entries) options w fails holds m i =
        FailsKeeping-next I (write_preflight state (e ∷ entries)) _ w
          (write_preflight-Keeps state I asks initializes encodes (e ∷ entries))
          (λ ready v run j.
            let (metadata, member) =
              write_preflight-Holds state I asks initializes encodes (e ∷ entries) w v ready run
                entry m in
            FailsKeeping-first I
              (widen writing (
                write_prepared_variables state.writes for_each (prepared ready)
                  (batch_options_of options)))
              _ v
              (execute-FailsKeeping (ready_of state I asks initializes encodes entry metadata)
                (subst UnencodableTo holds fails metadata) ready options v member j))
          i

    abbrev checked :
        ServiceLimits
        → List (WriteEntry Codec Value)
        → Effect World (OperationError state I) (Map WriteResult)
    checked options entries =
        and_then (validated configuration (write_many_spec state for_each) entries options)
          (λ _. run_entries configuration (write_many_spec state for_each) entries options)

    checked-FailsKeeping :
        (options : ServiceLimits) (entries : List (WriteEntry Codec Value)) (w : World)
        → ((v : World)
            → I v
            → FailsKeeping I
                (run_entries configuration (write_many_spec state for_each) entries options)
                v)
        → I w
        → FailsKeeping I (checked options entries) w
    unfolding validated
    checked-FailsKeeping options entries w fails i =
        FailsKeeping-next I
          (validate_unique_targets configuration "writeMany.items"
            (λ (e : WriteEntry Codec Value). e.normalized.node_id) entries)
          _ w
          (Keeps-validate_unique_targets I configuration "writeMany.items"
            (λ (e : WriteEntry Codec Value). e.normalized.node_id) entries)
          (λ _ v _ j. fails v j) i

    items-FailsKeeping :
        (items : List (String × WriteInput Codec Value)) (item : String × WriteInput Codec Value)
        (options : ServiceLimits) (w : World)
        → IsHopeless state I item.1
        → Memᴰ item items
        → I w
        → FailsKeeping I (and_then (normalized_from state I 0 items) (checked options)) w
    items-FailsKeeping items item options w (refused bad) m i =
        FailsKeeping-first I (normalized_from state I 0 items) (checked options) w
          (normalize_from-FailsKeeping state I item bad 0 items w m i)
    items-FailsKeeping items item options w (denied access def value same fails) m i =
        FailsKeeping-next I (normalized_from state I 0 items) (checked options) w
          (normalize_from-Keeps state I 0 items)
          (λ entries v run j.
            let (entry, member, holds) =
              normalize_from-Holds state I 0 items w v entries run item m in
            checked-FailsKeeping options entries v
              (λ u k.
                run_entries-denied item.1 entry entries options u (subst DeniedTo (sym same) fails)
                  holds member k)
              j)
          i
    items-FailsKeeping items item options w (unencodable access def value same fails) m i =
        FailsKeeping-next I (normalized_from state I 0 items) (checked options) w
          (normalize_from-Keeps state I 0 items)
          (λ entries v run j.
            let (entry, member, holds) =
              normalize_from-Holds state I 0 items w v entries run item m in
            checked-FailsKeeping options entries v
              (λ u k.
                run_entries-unencodable item.1 entry entries options u
                  (subst UnencodableTo (sym same) fails) holds member k)
              j)
          i

    -- If one item cannot be written, because it is no pair of a writable definition and a value or its identifier names no
    -- node, because its metadata are refused, or because its value cannot be encoded with any metadata, then writeMany
    -- fails, whatever the other items and the options are, and whatever holds before, and is kept by
    -- the metadata service, the initialization and the encoding, holds after, though the session's
    -- write need not keep it: that nothing was written, say.
    pub write_many_with_state-FailsKeeping :
        (items : List (String × WriteInput Codec Value)) (options : OptionsValue)
        (item : String × WriteInput Codec Value) (w : World)
        → IsHopeless state I item.1
        → Memᴰ item items
        → I w
        → FailsKeeping I (write_many_with_state state for_each (plain_record items) options) w
    unfolding write_many_with_state normalize_keyed_record
    write_many_with_state-FailsKeeping items options item w hopeless m i =
        FailsKeeping-next I
          (normalize_write_many_options configuration options (defaults_of state.write_limits)) _ w
          (Keeps-normalize_write_many_options configuration I options
            (defaults_of state.write_limits))
          (λ effective v _ j. items-FailsKeeping items item effective v hopeless m j) i

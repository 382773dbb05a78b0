-- ===== src/Client/Variable/Write/Unencodable.antt =====
-- A value that cannot be encoded: no request is made, for the other variables neither.
use effect_opcua.Prelude.{Option, List, [], ◌∷◌, any, Memᴰ, Bool-cases, subst, inl, inr}
use effect_opcua.Client.Effect.{succeed}
use effect_opcua.Client.Effect.Keeping.{
  Keeps, FailsKeeping, FailsKeeping-first, FailsKeeping-next, Keeps-next,
}
use effect_opcua.Client.Values.{StatusCode}
use effect_opcua.Client.Batch.{BatchOptions, ForEach}
use effect_opcua.Client.Variable.Write.{
  PreparedWriteVariable, WriteValue, WriteError, WriteServices, CodecMetadata, codec_metadata,
  encode_write_value, encode_all, initialize_writes, write_prepared_variables,
}

module _ {World Cause Codec Value Encoded EncodeError : Type 0}
    (services : WriteServices World Cause Codec Value Encoded EncodeError) (I : World → Type 0)
    (initializes : Keeps I services.ensure_initialized)
    (encodes : (codec : Codec) (value : Value) (metadata : CodecMetadata)
      → Keeps I (services.encode codec value metadata)) where
  encode_write_value-Keeps :
      (entry : PreparedWriteVariable Codec Value) → Keeps I (encode_write_value services entry)
  unfolding encode_write_value
  encode_write_value-Keeps entry =
      Keeps-next I (services.encode entry.def.codec entry.value (codec_metadata entry.metadata))
        (λ variant. succeed (record { node_id = entry.raw_node_id; value = variant }))
        (encodes entry.def.codec entry.value (codec_metadata entry.metadata)) (λ a v k. k)

  initialize_writes-Keeps :
      (entries : List (PreparedWriteVariable Codec Value))
      → Keeps I (initialize_writes services entries)
  unfolding initialize_writes
  initialize_writes-Keeps entries w i =
      elim (Bool-cases (
        any
          (λ (entry : PreparedWriteVariable Codec Value).
            services.requires_structure_runtime entry.def.codec)
          entries)) [ inl e ↦ rw e (initializes w i) | inr e ↦ rw e i ]

  encode_all-FailsKeeping :
      (bad : PreparedWriteVariable Codec Value)
      → ((v : World)
          → I v
          → FailsKeeping I
              (services.encode bad.def.codec bad.value (codec_metadata bad.metadata))
              v)
      → (entries : List (PreparedWriteVariable Codec Value)) (w : World) → Memᴰ bad entries
      → I w
      → FailsKeeping I (encode_all services entries) w
  unfolding encode_all encode_write_value
  encode_all-FailsKeeping bad fails [] w m i = elim m [ ]
  encode_all-FailsKeeping bad fails (entry ∷ entries) w (Memᴰ.head e) i =
      FailsKeeping-first I (encode_write_value services entry) _ w (
        subst (λ x. FailsKeeping I (encode_write_value services x) w) e
          (FailsKeeping-first I
            (services.encode bad.def.codec bad.value (codec_metadata bad.metadata)) _ w
            (fails w i)))
  encode_all-FailsKeeping bad fails (entry ∷ entries) w (Memᴰ.tail m) i =
      FailsKeeping-next I (encode_write_value services entry) _ w (encode_write_value-Keeps entry)
        (λ value v _ j.
          FailsKeeping-first I (encode_all services entries) _ v
            (encode_all-FailsKeeping bad fails entries v m j))
        i

-- If the value of one of the variables cannot be encoded, writePreparedVariables fails, and whatever
-- holds before, and is kept by the initialization and by encoding, holds after, though the session's
-- write need not keep it: that nothing was written, say.
pub write_prepared_variables-FailsKeeping :
    {World Cause Codec Value Encoded EncodeError : Type 0}
    (services : WriteServices World Cause Codec Value Encoded EncodeError) (I : World → Type 0)
    (for_each : ForEach World
      (WriteError Cause EncodeError)
      (List (WriteValue Encoded))
      (List StatusCode))
    → Keeps I services.ensure_initialized
    → ((codec : Codec) (value : Value) (metadata : CodecMetadata)
        → Keeps I (services.encode codec value metadata))
    → (bad : PreparedWriteVariable Codec Value)
    → ((v : World)
        → I v
        → FailsKeeping I (services.encode bad.def.codec bad.value (codec_metadata bad.metadata)) v)
    → (entries : List (PreparedWriteVariable Codec Value)) (options : Option BatchOptions)
      (w : World)
    → Memᴰ bad entries
    → I w
    → FailsKeeping I (write_prepared_variables services for_each entries options) w
unfolding write_prepared_variables
write_prepared_variables-FailsKeeping services I for_each initializes encodes bad fails entries
      options w m i =
    FailsKeeping-next I (initialize_writes services entries) _ w
      (initialize_writes-Keeps services I initializes encodes entries)
      (λ _ v _ j.
        FailsKeeping-first I (encode_all services entries) _ v
          (encode_all-FailsKeeping services I initializes encodes bad fails entries v m j))
      i

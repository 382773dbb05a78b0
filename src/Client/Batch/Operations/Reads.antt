-- ===== src/Client/Batch/Operations/Reads.antt =====
-- readManyWithState: what stands under the keys of its result.
use mathlib.Core.List.{Nodup}
use effect_opcua.Prelude.Pairs.{AllPairs, AllPairs-compose, map-AllPairs}
use effect_opcua.Prelude.{
  ℕ, String, some, List, [], ◌∷◌, map, true, ◌≡◌, refl, sym, ap, ◌∙◌, subst, Memᴰ, All, All-mem,
}
use effect_opcua.Prelude.Maps.{Map, get}
use effect_opcua.Client.Effect.{
  Exit, succeeded, failed, succeed, and_then-succeeded, widen, widen-succeeded,
}
use effect_opcua.Client.Values.{DataValue}
use effect_opcua.Client.Access.{VariableAccess}
use effect_opcua.Client.Batch.{ForEach}
use effect_opcua.Client.Batch.Ordered.{Answers, IsForEach}
use effect_opcua.Client.Batch.Keyed.{plain_record, validated, ready_entries}
use effect_opcua.Client.Batch.Keyed.Composed.{
  SucceedsWith, EntryOf, run_keyed_batch_operation-Published,
}
use effect_opcua.Client.Batch.Keyed.Targets.{validate_unique_targets_iff}
use effect_opcua.Client.Batch.Options.{
  OptionsValue, ReadManyOptions, ReadValidation, strict, unchecked, normalize_read_many_options,
}
use effect_opcua.Client.Batch.Operations.{
  ReadEntry, SessionError, configuration, metadata_error, reading, Definition, variable_def,
  no_variable_def, NormalizedReadItem, is_readable, SessionState, normalize_read_many_item,
  check_all, read_preflight, prepared_read, read_many_spec, read_many_with_state, defaults_of,
  batch_options_of,
}
use effect_opcua.Client.Variable.{
  VariableDef, PreparedReadVariable, ReadResult, ReadError, read_prepared_variables,
}
use effect_opcua.Client.Variable.Samples.{
  IsSampleOf, SampledWith, read_prepared_variables-SampledWith,
}

module _ {World Cause Codec Payload DecodeError A Value Encoded EncodeError Denied : Type 0}
    (state : SessionState World Cause Codec Payload DecodeError A Value Encoded EncodeError
      Denied) where
  -- The input defines a variable that may be read, whose identifier names this node.
  abbrev pub NamesReadable : Definition Codec → ℕ → Type 0
  NamesReadable (variable_def access def) id =
      (is_readable access ≡ true) × (state.node_ids.coerce def.node_id ≡ succeeded id)
  NamesReadable no_variable_def id = ⊥

  abbrev text_of_exit : Exit Cause ℕ → String
  text_of_exit (succeeded id) = state.node_ids.text id
  text_of_exit (failed _) = ""

  -- The node id that an item is for, in the form that NodeIds are compared in.
  abbrev pub target_of : String × Definition Codec → String
  target_of (key, variable_def access def) = text_of_exit (state.node_ids.coerce def.node_id)
  target_of (key, no_variable_def) = ""

  -- The sample that a session reads for a definition: of its own node, decoded by its own codec.
  abbrev pub IsReadFor :
      (ℕ → DataValue Payload → Type 0)
      → Definition Codec
      → ReadResult Payload DecodeError A
      → Type 0
  IsReadFor R (variable_def access def) r =
      (id : ℕ) × (dv : DataValue Payload) × (state.node_ids.coerce def.node_id ≡ succeeded id)
      × R id dv
      × IsSampleOf state.reads def dv r
  IsReadFor R no_variable_def r = ⊥

  abbrev Normalizes : String × Definition Codec → NormalizedReadItem Codec → Type 0
  Normalizes item n =
      (item.1 ≡ variable_def n.access n.def)
      × (state.node_ids.coerce n.def.node_id ≡ succeeded n.raw_node_id)
      × (n.node_id ≡ state.node_ids.text n.raw_node_id)

  normalize_read_many_item-Normalizes :
      (key : String) (input : Definition Codec) (id : ℕ) (w : World)
      → NamesReadable input id
      → SucceedsWith (Normalizes (key, input)) (normalize_read_many_item state key input) w
  unfolding normalize_read_many_item
  normalize_read_many_item-Normalizes key (variable_def access def) id w (readable, names) = (
    record { access = access; def = def; node_id = state.node_ids.text id; raw_node_id = id },
    w,
    rw (readable, names) refl,
    (refl, names, refl),
  )
  normalize_read_many_item-Normalizes key no_variable_def id w h = absurd h

  target-Normalizes :
      (item : String × Definition Codec) (n : NormalizedReadItem Codec)
      → Normalizes item n
      → n.node_id ≡ target_of item
  target-Normalizes (key, input) n (same, names, text) =
      text ∙ ap text_of_exit (sym names) ∙ ap (λ d. target_of (key, d)) (sym same)

  IsReadFor-Normalizes :
      (R : ℕ → DataValue Payload → Type 0) (item : String × Definition Codec)
      (n : NormalizedReadItem Codec) (r : ReadResult Payload DecodeError A)
      → Normalizes item n
      → SampledWith state.reads R (record { def = n.def; raw_node_id = n.raw_node_id }) r
      → IsReadFor R item.1 r
  IsReadFor-Normalizes R item n r (same, names, text) (dv, fits, sampled) =
      subst (λ d. IsReadFor R d r) (sym same) (n.raw_node_id, dv, names, fits, sampled)

  check_all-succeeds :
      (entries : List (ReadEntry Codec)) (w : World)
      → ((access : VariableAccess) (def : VariableDef Codec) (v : World)
          → SucceedsWith (λ _. Unit {0}) (state.metadata access def) v)
      → SucceedsWith (λ _. Unit {0}) (check_all state entries) w
  unfolding check_all
  check_all-succeeds [] w granted = (tt, w, refl, tt)
  check_all-succeeds (entry ∷ entries) w granted =
      let (m, v, e, _) = granted entry.normalized.access entry.normalized.def w in
      let (t, w', run, _) = check_all-succeeds entries v granted in
      (
        t,
        w',
        and_then-succeeded
              (widen metadata_error (state.metadata entry.normalized.access entry.normalized.def))
              (λ _. check_all state entries) w v m
              (widen-succeeded metadata_error
                (state.metadata entry.normalized.access entry.normalized.def) w v m e)
            ∙ run,
        tt,
      )

  read_preflight-succeeds :
      (P : List (ReadEntry Codec) → Type 0) (entries : List (ReadEntry Codec))
      (validation : ReadValidation) (options : ReadManyOptions) (w : World)
      → options.validation ≡ validation
      → P entries
      → (validation ≡ strict
          → (access : VariableAccess) (def : VariableDef Codec) (v : World)
          → SucceedsWith (λ _. Unit {0}) (state.metadata access def) v)
      → SucceedsWith P (read_preflight state entries options) w
  unfolding read_preflight
  read_preflight-succeeds P entries strict options w chosen h granted =
      let (t, v, run, _) = check_all-succeeds entries w (granted refl) in
      (
        entries,
        v,
        rw chosen (and_then-succeeded (check_all state entries) (λ _. succeed entries) w v t run),
        h,
      )
  read_preflight-succeeds P entries unchecked options w chosen h granted =
      (entries, w, rw chosen refl, h)

  module _ (R : ℕ → DataValue Payload → Type 0)
      (for_each : ForEach World
        (ReadError Cause)
        (List (PreparedReadVariable Codec))
        (List (DataValue Payload)))
      (laws : IsForEach for_each)
      (initialized : (w : World)
        → (w' : World) × (state.reads.ensure_initialized w ≡ (succeeded tt, w')))
      (in_order : (ids : List ℕ) (dvs : List (DataValue Payload))
        → Answers (state.reads.read ids) dvs
        → AllPairs R ids dvs)
      (answers : (ids : List ℕ) (w : World)
        → (dvs : List (DataValue Payload)) × (w' : World) × (state.reads.read ids w
            ≡ (succeeded dvs, w'))) where
    execute-IsReadFor :
        (items : List (String × Definition Codec)) (entries : List (ReadEntry Codec))
        (options : ReadManyOptions) (w : World)
        → AllPairs (EntryOf Normalizes) items entries
        → SucceedsWith {E = SessionError Cause EncodeError Denied}
            (AllPairs (λ (item : String × Definition Codec). IsReadFor R item.1) items)
            (widen reading (
              read_prepared_variables state.reads for_each
                (map (prepared_read state) entries)
                (batch_options_of options.limits)))
            w
    execute-IsReadFor items entries options w h =
        let (rs, w', run, sampled) =
          read_prepared_variables-SampledWith state.reads R for_each laws initialized in_order
            answers (map (prepared_read state) entries) (batch_options_of options.limits) w in
        (
          rs,
          w',
          widen-succeeded reading
              (read_prepared_variables state.reads for_each (map (prepared_read state) entries)
                (batch_options_of options.limits))
              w w' rs run,
          AllPairs-compose (EntryOf Normalizes) (prepared_read state) (SampledWith state.reads R)
              (λ (item : String × Definition Codec). IsReadFor R item.1) items entries rs
              (λ item e r (_, n) q. IsReadFor-Normalizes R item e.normalized r n q) h sampled,
        )

    -- If every item is a readable variable definition with an identifier that names a node, no two of the
    -- same node, no key is __proto__, the options are accepted, the metadata of every variable can be had where the validation is strict, the
    -- structure runtime initializes, and the session answers every read in the order of its nodes, then readMany
    -- succeeds, and under the key of every item stands the sample of its own node, decoded by its own codec.
    pub read_many_with_state-IsReadFor :
        (items : List (String × Definition Codec)) (options : OptionsValue)
        (effective : ReadManyOptions) (w v : World)
        → Nodup (map (λ (item : String × Definition Codec). item.0) items)
        → ¬ Memᴰ "__proto__" (map (λ (item : String × Definition Codec). item.0) items)
        → Nodup (map target_of items)
        → All (λ (item : String × Definition Codec). (id : ℕ) × NamesReadable item.1 id) items
        → normalize_read_many_options {E = SessionError Cause EncodeError Denied} configuration
            options
            (defaults_of state.read_limits)
            w
          ≡ (succeeded effective, v)
        → (effective.validation ≡ strict
            → (access : VariableAccess) (def : VariableDef Codec) (u : World)
            → SucceedsWith (λ _. Unit {0}) (state.metadata access def) u)
        → (out : Map (ReadResult Payload DecodeError A)) × (w' : World) × (read_many_with_state
              state for_each
              (plain_record items)
              options
              w
            ≡ (succeeded out, w'))
          × ((item : String × Definition Codec)
              → Memᴰ item items
              → (r : ReadResult Payload DecodeError A) × (get item.0 out ≡ some r)
                × IsReadFor R item.1 r)
    unfolding read_many_with_state validated ready_entries
    read_many_with_state-IsReadFor items options effective w v keys ordinary targets readable
          accepted granted =
        run_keyed_batch_operation-Published configuration (read_many_spec state for_each) (λ r. r)
          (λ entry raw u. refl) Normalizes Normalizes
          (λ (item : String × Definition Codec). IsReadFor R item.1) items effective options
          state.read_limits w v keys ordinary accepted
          (λ item u m.
            let (id, names) =
              All-mem (λ (item : String × Definition Codec). (id : ℕ) × NamesReadable item.1 id)
                items readable m in
            normalize_read_many_item-Normalizes item.0 item.1 id u names)
          (λ entries u h. (
            tt,
            u,
            (validate_unique_targets_iff configuration "readMany.items"
                  (λ (e : ReadEntry Codec). e.normalized.node_id) u entries).1
                (subst Nodup
                  (sym (
                    map-AllPairs (EntryOf Normalizes) target_of
                      (λ (e : ReadEntry Codec). e.normalized.node_id) items entries
                      (λ item e (_, n). target-Normalizes item e.normalized n) h))
                  targets),
            tt,
          ))
          (λ entries u h.
            read_preflight-succeeds (AllPairs (EntryOf Normalizes) items) entries
              effective.validation effective u refl h granted)
          (λ ready u h. execute-IsReadFor items ready effective u h)

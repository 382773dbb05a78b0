-- ===== src/Client/Batch/Operations/Refused.antt =====
-- The items of writeManyWithState: which are refused, and that each of the others has its entry.
use mathlib.Core.List.Memᴰ
use effect_opcua.Prelude.{
  ℕ, suc, String, List, [], ◌∷◌, false, Bool-cases, ◌≡◌, refl, sym, subst, ◌⊎◌, inl, inr, ⊎_elim,
  Memᴰ, mem-nil,
}
use effect_opcua.Client.Effect.{
  Exit, succeeded, failed, Effect, succeed, succeeded-and_then, succeeded-injective,
  failed-ne-succeeded,
}
use effect_opcua.Client.Effect.Keeping.{
  Keeps, FailsKeeping, FailsKeeping-first, FailsKeeping-next, Keeps-next,
}
use effect_opcua.Client.Access.{VariableAccess}
use effect_opcua.Client.Metadata.Cache.{VariableMetadata}
use effect_opcua.Client.Batch.Keyed.{
  no_writable_pair, no_writable_definition, unparsable_node_id, normalize_from,
}
use effect_opcua.Client.Batch.Operations.{
  WriteEntry, SessionError, configuration, variable_def, no_variable_def, WriteInput, write_pair,
  no_pair, item_error, NormalizedWriteItem, is_writable, SessionState, normalize_write_many_item,
  coerced,
}
use effect_opcua.Client.Variable.{VariableDef}
use effect_opcua.Client.Variable.Write.{codec_metadata}

module _ {World Cause Codec Payload DecodeError A Value Encoded EncodeError Denied : Type 0}
    (state : SessionState World Cause Codec Payload DecodeError A Value Encoded EncodeError Denied)
    (I : World → Type 0) where
  -- The input is no pair of a writable definition with an identifier that names a node, and a value.
  abbrev pub IsRefused : WriteInput Codec Value → Type 0
  IsRefused no_pair = Unit
  IsRefused (write_pair no_variable_def value) = Unit
  IsRefused (write_pair (variable_def access def) value) =
      (is_writable access ≡ false)
      ⊎ ((cause : Cause) × (state.node_ids.coerce def.node_id ≡ failed cause))

  -- Why an item cannot be written: it is refused, or the metadata of its variable are, or its value
  -- cannot be encoded with them.
  pub data IsHopeless (input : WriteInput Codec Value) : Type 0 where
    refused : IsRefused input → IsHopeless input
    denied :
        (access : VariableAccess) (def : VariableDef Codec) (value : Value)
        → input ≡ write_pair (variable_def access def) value
        → ((v : World) → I v → FailsKeeping I (state.metadata access def) v)
        → IsHopeless input
    unencodable :
        (access : VariableAccess) (def : VariableDef Codec) (value : Value)
        → input ≡ write_pair (variable_def access def) value
        → ((metadata : VariableMetadata) (v : World)
            → I v
            → FailsKeeping I (state.writes.encode def.codec value (codec_metadata metadata)) v)
        → IsHopeless input

  abbrev pub OperationError : Type 0
  OperationError = SessionError Cause EncodeError Denied

  Keeps-coerced :
      {Item : Type 0} (operation key : String) (item : ℕ → Item) (r : Exit Cause ℕ)
      → Keeps I (coerced state operation key item r)
  Keeps-coerced operation key item (succeeded id) w i = i
  Keeps-coerced operation key item (failed cause) w i = i

  Keeps-normalize_write_many_item :
      (key : String) (input : WriteInput Codec Value)
      → Keeps I (normalize_write_many_item state key input)
  unfolding normalize_write_many_item
  Keeps-normalize_write_many_item key no_pair w i = i
  Keeps-normalize_write_many_item key (write_pair no_variable_def value) w i = i
  Keeps-normalize_write_many_item key (write_pair (variable_def access def) value) w i =
      elim (Bool-cases (is_writable access)) [
        | inl e ↦
            rw e (Keeps-coerced "writeMany.items" key _ (state.node_ids.coerce def.node_id) w i)
        | inr e ↦ rw e i
      ]

  -- The item is refused, or its entry has its definition and its value.
  abbrev pub Holds : WriteInput Codec Value → NormalizedWriteItem Codec Value → Type 0
  Holds input n = input ≡ write_pair (variable_def n.access n.def) n.value

  normalize_write_many_item-FailsKeeping :
      (key : String) (input : WriteInput Codec Value) (w : World)
      → IsRefused input
      → I w
      → FailsKeeping I (normalize_write_many_item state key input) w
  unfolding normalize_write_many_item
  normalize_write_many_item-FailsKeeping key no_pair w h i =
      (configuration (item_error "writeMany.items" key no_writable_pair), w, refl, i)
  normalize_write_many_item-FailsKeeping key (write_pair no_variable_def value) w h i =
      (configuration (item_error "writeMany.items" key no_writable_definition), w, refl, i)
  normalize_write_many_item-FailsKeeping key (write_pair (variable_def access def) value) w (inl e)
        i =
      (configuration (item_error "writeMany.items" key no_writable_definition), w, rw e refl, i)
  normalize_write_many_item-FailsKeeping key (write_pair (variable_def access def) value) w
        (inr (cause, f)) i =
      elim (Bool-cases (is_writable access)) [
        | inl e ↦ (
          configuration (item_error "writeMany.items" key unparsable_node_id),
          w,
          rw (e, f) refl,
          i,
        )
        | inr e ↦ (
          configuration (item_error "writeMany.items" key no_writable_definition),
          w,
          rw e refl,
          i,
        )
      ]

  coerced-succeeded :
      {Item : Type 0} (operation key : String) (item : ℕ → Item) (r : Exit Cause ℕ) (w v : World)
      (n : Item)
      → coerced state operation key item r w ≡ (succeeded n, v)
      → (id : ℕ) × (item id ≡ n)
  coerced-succeeded operation key item (succeeded id) w v n h = (id, succeeded-injective h)
  coerced-succeeded operation key item (failed cause) w v n h = absurd (failed-ne-succeeded h)

  normalize_write_many_item-Holds :
      (key : String) (input : WriteInput Codec Value) (w v : World)
      (n : NormalizedWriteItem Codec Value)
      → normalize_write_many_item state key input w ≡ (succeeded n, v)
      → Holds input n
  unfolding normalize_write_many_item
  normalize_write_many_item-Holds key no_pair w v n h = absurd (failed-ne-succeeded h)
  normalize_write_many_item-Holds key (write_pair no_variable_def value) w v n h =
      absurd (failed-ne-succeeded h)
  normalize_write_many_item-Holds key (write_pair (variable_def access def) value) w v n h =
      elim (Bool-cases (is_writable access)) [
        | inl e ↦
            let (id, same) =
              coerced-succeeded "writeMany.items" key _ (state.node_ids.coerce def.node_id) w v n
                (rw e at h) in
            subst (Holds (write_pair (variable_def access def) value)) same refl
        | inr e ↦ absurd (failed-ne-succeeded (rw e at h))
      ]

  abbrev pub normalized_from :
      ℕ
      → List (String × WriteInput Codec Value)
      → Effect World OperationError (List (WriteEntry Codec Value))
  normalized_from =
      normalize_from configuration (λ key input index. normalize_write_many_item state key input)

  pub normalize_from-Keeps :
      (index : ℕ) (items : List (String × WriteInput Codec Value))
      → Keeps I (normalized_from index items)
  unfolding normalize_from
  normalize_from-Keeps index [] w i = i
  normalize_from-Keeps index ((key, input) ∷ items) w i =
      Keeps-next I (normalize_write_many_item state key input) _
        (Keeps-normalize_write_many_item key input)
        (λ n.
          Keeps-next I (normalized_from (suc index) items)
            (λ entries. succeed (record { key = key; index = index; normalized = n } ∷ entries))
            (normalize_from-Keeps (suc index) items) (λ _ v k. k))
        w i

  pub normalize_from-FailsKeeping :
      (item : String × WriteInput Codec Value)
      → IsRefused item.1
      → (index : ℕ) (items : List (String × WriteInput Codec Value)) (w : World) → Memᴰ item items
      → I w
      → FailsKeeping I (normalized_from index items) w
  unfolding normalize_from
  normalize_from-FailsKeeping item bad index [] w m i = absurd (mem-nil m)
  normalize_from-FailsKeeping item bad index ((key, input) ∷ items) w m i =
      ⊎_elim
        (λ here. FailsKeeping-first I (normalize_write_many_item state key input) _ w (
          normalize_write_many_item-FailsKeeping key input w (subst (λ x. IsRefused x.1) here bad)
            i))
        (λ n.
          FailsKeeping-next I (normalize_write_many_item state key input) _ w
            (Keeps-normalize_write_many_item key input)
            (λ made v _ j.
              FailsKeeping-first I (normalized_from (suc index) items) _ v
                (normalize_from-FailsKeeping item bad (suc index) items v n j))
            i)
        (Memᴰ.cases_cons m)

  -- Every item has its entry.
  pub normalize_from-Holds :
      (index : ℕ) (items : List (String × WriteInput Codec Value)) (w v : World)
      (entries : List (WriteEntry Codec Value))
      → normalized_from index items w ≡ (succeeded entries, v)
      → (item : String × WriteInput Codec Value) → Memᴰ item items
      → (e : WriteEntry Codec Value) × Memᴰ e entries × Holds item.1 e.normalized
  unfolding normalize_from
  normalize_from-Holds index [] w v entries h item m = absurd (mem-nil m)
  normalize_from-Holds index ((key, input) ∷ items) w v entries h item m =
      let (n, u, made, rest) =
        succeeded-and_then (normalize_write_many_item state key input) _ w v entries h in
      let (es, x, run, last) =
        succeeded-and_then (normalized_from (suc index) items)
          (λ entries. succeed (record { key = key; index = index; normalized = n } ∷ entries)) u v
          entries rest in
      subst (λ l. (e : WriteEntry Codec Value) × Memᴰ e l × Holds item.1 e.normalized)
        (succeeded-injective last)
        (⊎_elim
          (λ here. (
            record { key = key; index = index; normalized = n },
            Memᴰ.head refl,
            subst (λ y. Holds y.1 n) (sym here)
                (normalize_write_many_item-Holds key input w u n made),
          ))
          (λ later.
            let (e, member, holds) = normalize_from-Holds (suc index) items u x es run item later in
            (e, Memᴰ.tail member, holds))
          (Memᴰ.cases_cons m))

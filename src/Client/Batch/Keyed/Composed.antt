-- ===== src/Client/Batch/Keyed/Composed.antt =====
-- runKeyedBatchOperation as a whole: what its parts do with the items one by one, and what then stands
-- under the keys of the result.
use mathlib.Core.List.{Nodup}
use mathlib.Core.List.Memᴰ
use effect_opcua.Prelude.Pairs.{map-AllPairs, AllPairs, length-AllPairs}
use effect_opcua.Prelude.{
  ℕ, suc, String, Option, some, List, [], ◌∷◌, map, ◌≡◌, refl, sym, ap, ◌∙◌, subst, Memᴰ, mem-nil,
  ⊎_elim,
}
use effect_opcua.Prelude.Maps.{Map, get}
use effect_opcua.Client.Effect.{
  Effect, succeeded, succeed, and_then, and_then-succeeded, succeeded-injective,
}
use effect_opcua.Client.Batch.Keyed.{
  KeyedEntry, ConfigurationError, plain_record, zip, normalize_from, normalize_keyed_record,
  rekey_ordered_results, KeyedBatchSpec, validated, ready_entries, run_entries,
  run_keyed_batch_operation,
}
use effect_opcua.Client.Batch.Keyed.Rekeyed.{rekey_ordered_results-IsRekeyed}

-- The program succeeds from this world, with a value that has the property.
abbrev pub SucceedsWith : {World E A : Type 0} → (A → Type 0) → Effect World E A → World → Type 0
SucceedsWith {World} {E} {A} P program w =
    (a : A) × (w' : World) × (program w ≡ (succeeded a, w')) × P a

-- The entry of an item has the item's key, and the relation holds of what was made of it.
abbrev pub EntryOf :
    {Input N : Type 0} → (String × Input → N → Type 0) → String × Input → KeyedEntry N → Type 0
EntryOf M item entry = (entry.key ≡ item.0) × M item entry.normalized

abbrev key_of : {Input : Type 0} → String × Input → String
key_of item = item.0

keys-EntryOf :
    {Input N : Type 0} (M : String × Input → N → Type 0) (items : List (String × Input))
    (entries : List (KeyedEntry N))
    → AllPairs (EntryOf M) items entries
    → map (λ (e : KeyedEntry N). e.key) entries ≡ map key_of items
keys-EntryOf M items entries h =
    map-AllPairs (EntryOf M) key_of (λ (e : KeyedEntry _). e.key) items entries (λ item e p. p.0) h

not_mem_unpaired :
    {A B : Type 0} (P : A → B → Type 0) (xs : List A) (x : A) → AllPairs P xs [] → ¬ Memᴰ x xs
not_mem_unpaired P [] x h m = mem-nil m
not_mem_unpaired P (y ∷ ys) x h m = absurd h

-- Every item has a pair of its entry and its raw result.
mem-zip :
    {Input N Raw : Type 0} (M : String × Input → N → Type 0) (Q : String × Input → Raw → Type 0)
    (items : List (String × Input)) (entries : List (KeyedEntry N)) (raws : List Raw)
    (item : String × Input)
    → AllPairs (EntryOf M) items entries
    → AllPairs Q items raws
    → Memᴰ item items
    → (e : KeyedEntry N) × (raw : Raw) × Memᴰ (e, raw) (zip entries raws)
      × (e.key ≡ item.0)
      × Q item raw
mem-zip M Q [] entries raws item h k m = absurd (mem-nil m)
mem-zip M Q (x ∷ xs) [] raws item h k m = absurd h
mem-zip M Q (x ∷ xs) (e ∷ es) [] item h k m = absurd k
mem-zip M Q (x ∷ xs) (e ∷ es) (raw ∷ raws) item ((same, r), h) (q, k) m =
    ⊎_elim
      (λ here.
        (e, raw, Memᴰ.head refl, same ∙ ap key_of (sym here), subst (λ x. Q x raw) (sym here) q))
      (λ n.
        let (e', raw', member, same', q') = mem-zip M Q xs es raws item h k n in
        (e', raw', Memᴰ.tail member, same', q'))
      (Memᴰ.cases_cons m)

module _ {World E Input Normalized : Type 0} (configuration_error : ConfigurationError → E)
    (normalize_item : String → Input → ℕ → Effect World E Normalized)
    (M : String × Input → Normalized → Type 0) where
  normalize_from-AllPairs :
      (index : ℕ) (items : List (String × Input)) (w : World)
      → ((item : String × Input) (i : ℕ) (v : World)
          → Memᴰ item items
          → SucceedsWith (M item) (normalize_item item.0 item.1 i) v)
      → SucceedsWith
          (AllPairs (EntryOf M) items)
          (normalize_from configuration_error normalize_item index items)
          w
  unfolding normalize_from
  normalize_from-AllPairs index [] w answers = ([], w, refl, tt)
  normalize_from-AllPairs index ((key, input) ∷ items) w answers =
      let (n, v, e, r) = answers (key, input) index w (Memᴰ.head refl) in
      let (entries, w', run, h) =
        normalize_from-AllPairs (suc index) items v
          (λ item i u m. answers item i u (Memᴰ.tail m)) in
      let entry : KeyedEntry Normalized = record { key = key; index = index; normalized = n } in
      (
        entry ∷ entries,
        w',
        and_then-succeeded (normalize_item key input index) _ w v n e
            ∙ and_then-succeeded
                (normalize_from configuration_error normalize_item (suc index) items)
                (λ es. succeed (entry ∷ es)) v w' entries run,
        ((refl, r), h),
      )

module _ {World E Input Options Defaults EffectiveOptions Normalized Ready Raw Public : Type 0}
    (configuration_error : ConfigurationError → E)
    (spec : KeyedBatchSpec World E Input Options Defaults EffectiveOptions Normalized Ready Raw
      Public)
    (publish : Raw → Public)
    (publishes : (entry : KeyedEntry Ready) (raw : Raw) (v : World)
      → spec.to_public_result entry raw v ≡ (succeeded (publish raw), v))
    (M : String × Input → Normalized → Type 0) (L : String × Input → Ready → Type 0)
    (Q : String × Input → Raw → Type 0) (items : List (String × Input))
    (effective : EffectiveOptions) where
  -- Under the key of every item stands a result that is published for it.
  abbrev pub Published : Map Public → Type 0
  Published out =
      (item : String × Input)
      → Memᴰ item items
      → (raw : Raw) × (get item.0 out ≡ some (publish raw)) × Q item raw

  rekeyed-Published :
      (ready : List (KeyedEntry Ready)) (raws : List Raw) (w : World)
      → Nodup (map key_of items)
      → ¬ Memᴰ "__proto__" (map key_of items)
      → AllPairs (EntryOf L) items ready
      → AllPairs Q items raws
      → SucceedsWith Published
          (rekey_ordered_results configuration_error spec.to_public_result spec.operation ready
            raws)
          w
  rekeyed-Published ready raws w distinct ordinary h k =
      let (out, w', run, rekeyed) =
        rekey_ordered_results-IsRekeyed configuration_error spec.to_public_result spec.operation
          ready raws w (λ entry raw v. (publish raw, v, publishes entry raw v))
          (length-AllPairs Q items raws k ∙ sym (length-AllPairs (EntryOf L) items ready h))
          (subst Nodup (sym (keys-EntryOf L items ready h)) distinct)
          (λ m. ordinary (subst (Memᴰ "__proto__") (keys-EntryOf L items ready h) m)) in
      (
        out,
        w',
        run,
        λ item m.
            let (e, raw, member, same, q) = mem-zip L Q items ready raws item h k m in
            let (p, found, (u, u', converted)) = rekeyed.results (e, raw) member in
            let value = succeeded-injective (sym converted ∙ publishes e raw u) in
            (raw, ap (λ x. get x out) (sym same) ∙ found ∙ ap some value, q),
      )

  run_entries-Published :
      (entries : List (KeyedEntry Normalized)) (w : World)
      → AllPairs (EntryOf M) items entries
      → Nodup (map key_of items)
      → ¬ Memᴰ "__proto__" (map key_of items)
      → ((v : World)
          → SucceedsWith
              (AllPairs (EntryOf L) items)
              (ready_entries configuration_error spec entries effective)
              v)
      → ((ready : List (KeyedEntry Ready)) (v : World)
          → AllPairs (EntryOf L) items ready
          → SucceedsWith (AllPairs Q items) (spec.execute ready effective) v)
      → SucceedsWith Published (run_entries configuration_error spec entries effective) w
  unfolding run_entries
  run_entries-Published [] w h distinct ordinary prepares executes =
      ([], w, refl, λ item m. absurd (not_mem_unpaired (EntryOf M) items item h m))
  run_entries-Published (entry ∷ entries) w h distinct ordinary prepares executes =
      let (ready, v, prepared, related) = prepares w in
      let (raws, u, executed, answered) = executes ready v related in
      let (out, w', run, published) =
        rekeyed-Published ready raws u distinct ordinary related answered in
      (
        out,
        w',
        and_then-succeeded (ready_entries configuration_error spec (entry ∷ entries) effective) _ w
              v ready prepared
            ∙ and_then-succeeded (spec.execute ready effective) _ v u raws executed
            ∙ run,
        published,
      )

  -- If no key is __proto__, every item can be normalised, the entries pass the check and the preflight, and the request
  -- gives a result for each of them in their order, then the whole operation succeeds, and under the
  -- key of every item stands the result for this item.
  pub run_keyed_batch_operation-Published :
      (options : Options) (defaults : Option Defaults) (w v : World)
      → Nodup (map key_of items)
      → ¬ Memᴰ "__proto__" (map key_of items)
      → spec.normalize_options options defaults w ≡ (succeeded effective, v)
      → ((item : String × Input) (u : World)
          → Memᴰ item items
          → SucceedsWith (M item) (spec.normalize_item item.0 item.1 effective) u)
      → ((entries : List (KeyedEntry Normalized)) (u : World)
          → AllPairs (EntryOf M) items entries
          → SucceedsWith (λ _. Unit {0}) (validated configuration_error spec entries effective) u)
      → ((entries : List (KeyedEntry Normalized)) (u : World)
          → AllPairs (EntryOf M) items entries
          → SucceedsWith
              (AllPairs (EntryOf L) items)
              (ready_entries configuration_error spec entries effective)
              u)
      → ((ready : List (KeyedEntry Ready)) (u : World)
          → AllPairs (EntryOf L) items ready
          → SucceedsWith (AllPairs Q items) (spec.execute ready effective) u)
      → SucceedsWith Published
          (run_keyed_batch_operation configuration_error spec (plain_record items) options defaults)
          w
  unfolding run_keyed_batch_operation normalize_keyed_record
  run_keyed_batch_operation-Published options defaults w v distinct ordinary chosen normalizes valid
        prepares executes =
      let (entries, u, made, h) =
        normalize_from-AllPairs configuration_error
          (λ key input index. spec.normalize_item key input effective) M 0 items v
          (λ item i x m. normalizes item x m) in
      let (t, x, checked, _) = valid entries u h in
      let (out, w', run, published) =
        run_entries-Published entries x h distinct ordinary (λ y. prepares entries y h) executes in
      (
        out,
        w',
        and_then-succeeded (spec.normalize_options options defaults) _ w v effective chosen
            ∙ and_then-succeeded
                (normalize_from configuration_error
                  (λ key input index. spec.normalize_item key input effective) 0 items)
                (λ entries.
                  and_then (validated configuration_error spec entries effective)
                    (λ _. run_entries configuration_error spec entries effective))
                v u entries made
            ∙ and_then-succeeded (validated configuration_error spec entries effective)
                (λ _. run_entries configuration_error spec entries effective) u x t checked
            ∙ run,
        published,
      )

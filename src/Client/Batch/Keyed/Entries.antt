-- ===== src/Client/Batch/Keyed/Entries.antt =====
-- normalizeKeyedRecord gives an entry for every item of the record, in the record's order.
use effect_opcua.Prelude.{ℕ, suc, String, List, [], ◌∷◌, ◌≡◌, refl, ◌∙◌, Memᴰ}
use effect_opcua.Client.Effect.{Effect, succeeded, succeed, and_then, and_then-succeeded}
use effect_opcua.Client.Batch.Keyed.{
  KeyedEntry, ConfigurationError, plain_record, normalize_from, normalize_keyed_record,
}

module _ {World E Input Normalized : Type 0} (configuration_error : ConfigurationError → E)
    (normalize_item : String → Input → ℕ → Effect World E Normalized) where
  -- From an index on, every entry has its item's key, its position, and what the item was normalised
  -- to.
  abbrev pub IsIndexed : ℕ → List (String × Input) → List (KeyedEntry Normalized) → Type 0
  IsIndexed index [] [] = Unit
  IsIndexed index ((key, input) ∷ items) (e ∷ entries) =
      (e.key ≡ key)
      × (e.index ≡ index)
      × ((w : World) × (w' : World) × (normalize_item key input index w
            ≡ (succeeded e.normalized, w')))
      × IsIndexed (suc index) items entries
  IsIndexed index _ _ = ⊥

  normalize_from-IsIndexed :
      (index : ℕ) (items : List (String × Input)) (w : World)
      → ((key : String) (input : Input) (i : ℕ) (v : World)
          → Memᴰ (key, input) items
          → (n : Normalized) × (v' : World) × (normalize_item key input i v ≡ (succeeded n, v')))
      → (entries : List (KeyedEntry Normalized)) × (w' : World) × (normalize_from
            configuration_error normalize_item index items w
          ≡ (succeeded entries, w'))
        × IsIndexed index items entries
  unfolding normalize_from
  normalize_from-IsIndexed index [] w answers = ([], w, refl, tt)
  normalize_from-IsIndexed index ((key, input) ∷ items) w answers =
      let (n, v, e) = answers key input index w (Memᴰ.head refl) in
      let (entries, w', run, h) =
        normalize_from-IsIndexed (suc index) items v (λ k j i u m. answers k j i u (Memᴰ.tail m)) in
      let entry : KeyedEntry Normalized = record { key = key; index = index; normalized = n } in
      (
        entry ∷ entries,
        w',
        and_then-succeeded (normalize_item key input index)
              (λ m.
                and_then (normalize_from configuration_error normalize_item (suc index) items)
                  (λ es. succeed (record { key = key; index = index; normalized = m } ∷ es)))
              w v n e
            ∙ and_then-succeeded
                (normalize_from configuration_error normalize_item (suc index) items)
                (λ es. succeed (entry ∷ es)) v w' entries run,
        (refl, refl, (w, v, e), h),
      )

  -- Where every item of the record can be normalised, normalizeKeyedRecord succeeds on a plain record with one entry
  -- for each item, in the record's order: its key, its position and its normalised input.
  pub normalize_keyed_record-IsIndexed :
      (operation : String) (items : List (String × Input)) (w : World)
      → ((key : String) (input : Input) (i : ℕ) (v : World)
          → Memᴰ (key, input) items
          → (n : Normalized) × (v' : World) × (normalize_item key input i v ≡ (succeeded n, v')))
      → (entries : List (KeyedEntry Normalized)) × (w' : World) × (normalize_keyed_record
            configuration_error normalize_item operation
            (plain_record items)
            w
          ≡ (succeeded entries, w'))
        × IsIndexed 0 items entries
  unfolding normalize_keyed_record
  normalize_keyed_record-IsIndexed operation items w answers =
      normalize_from-IsIndexed 0 items w answers

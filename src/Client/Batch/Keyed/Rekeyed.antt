-- ===== src/Client/Batch/Keyed/Rekeyed.antt =====
-- rekeyOrderedResults puts every result under the key of the entry at its position.
use mathlib.Core.List.{Nodup, Nodup-cons}
use mathlib.Core.List.Memᴰ
use effect_opcua.Prelude.{
  String, some, List, [], ◌∷◌, map, length, true, false, ◌==◌, eq_iff, nat_eq, if◌then◌else◌, ◌≡◌,
  refl, sym, ap, subst, ◌∙◌, inl, inr, Bool-cases, arith, Memᴰ, mem-nil, ⊎_elim,
}
use effect_opcua.Prelude.Maps.{Map, get, set, get-set}
use effect_opcua.Client.Effect.{Effect, succeeded, and_then-succeeded}
use effect_opcua.Client.Batch.Keyed.{
  KeyedEntry, zip, assign, ConfigurationError, rekey_from, rekey_ordered_results,
}

module _ {World E Ready RawResult PublicResult : Type 0}
    (configuration_error : ConfigurationError → E)
    (to_public_result : KeyedEntry Ready → RawResult → Effect World E PublicResult) where
  -- The program gave the result for this entry and this raw result.
  abbrev pub Converted : KeyedEntry Ready × RawResult → PublicResult → Type 0
  Converted (entry, raw) p =
      (w : World) × (w' : World) × (to_public_result entry raw w ≡ (succeeded p, w'))

  abbrev pub pair_key : KeyedEntry Ready × RawResult → String
  pair_key (entry, _) = entry.key

  -- Every pair has its result in the record, and no other key is changed.
  pub record IsRekeyed (pairs : List (KeyedEntry Ready × RawResult))
      (before after : Map PublicResult) : Type 0 where
    pub results :
        (pair : KeyedEntry Ready × RawResult)
        → Memᴰ pair pairs
        → (p : PublicResult) × (get (pair_key pair) after ≡ some p) × Converted pair p
    pub others : (k : String) → ¬ Memᴰ k (map pair_key pairs) → get k after ≡ get k before

  IsRekeyed-cons :
      (entry : KeyedEntry Ready) (raw : RawResult) (pairs : List (KeyedEntry Ready × RawResult))
      (before after : Map PublicResult) (p : PublicResult)
      → ¬ Memᴰ entry.key (map pair_key pairs)
      → Converted (entry, raw) p
      → IsRekeyed pairs (set entry.key p before) after
      → IsRekeyed ((entry, raw) ∷ pairs) before after
  IsRekeyed-cons entry raw pairs before after p fresh made h = record {
    results = λ pair m.
        ⊎_elim
          (λ e.
            subst (λ q. (p : PublicResult) × (get (pair_key q) after ≡ some p) × Converted q p)
              (sym e)
              (
                p,
                h.others entry.key fresh
                    ∙ ground
                        (arith, get-set entry.key entry.key p before, eq_iff entry.key entry.key),
                made,
              ))
          (λ n. h.results pair n) (Memᴰ.cases_cons m);
    others = λ k outside.
        let other : (entry.key == k) ≡ false = elim (Bool-cases (entry.key == k)) [
          | inl same ↦ absurd (outside (Memᴰ.head (sym ((eq_iff entry.key k).0 same))))
          | inr differ ↦ differ
        ] in
        h.others k (λ m. outside (Memᴰ.tail m)) ∙ ground (arith, get-set entry.key k p before);
  }

  keys-zip :
      (entries : List (KeyedEntry Ready)) (raw_results : List RawResult)
      → length raw_results ≡ length entries
      → map pair_key (zip entries raw_results) ≡ map (λ (e : KeyedEntry Ready). e.key) entries
  keys-zip [] raws long = refl
  keys-zip (e ∷ es) [] long = absurd (omega arith)
  keys-zip (e ∷ es) (r ∷ rs) long = ap (λ l. e.key ∷ l) (keys-zip es rs (omega arith))

  rekey_from-IsRekeyed :
      (pairs : List (KeyedEntry Ready × RawResult)) (out : Map PublicResult) (w : World)
      → ((entry : KeyedEntry Ready) (raw : RawResult) (v : World)
          → (p : PublicResult) × (v' : World) × (to_public_result entry raw v ≡ (succeeded p, v')))
      → Nodup (map pair_key pairs)
      → ¬ Memᴰ "__proto__" (map pair_key pairs)
      → (after : Map PublicResult) × (w' : World) × (rekey_from configuration_error to_public_result
            pairs out w
          ≡ (succeeded after, w'))
        × IsRekeyed pairs out after
  unfolding rekey_from
  rekey_from-IsRekeyed [] out w answers distinct ordinary =
      (out, w, refl, record { results = λ pair m. absurd (mem-nil m); others = λ k h. refl })
  rekey_from-IsRekeyed ((entry, raw) ∷ pairs) out w answers distinct ordinary =
      let (p, v, e) = answers entry raw w in
      let (fresh, rest) = Nodup-cons.0 distinct in
      let own_key : (entry.key == "__proto__") ≡ false =
        elim (Bool-cases (entry.key == "__proto__")) [
          | inl same ↦ absurd (ordinary (Memᴰ.head (sym ((eq_iff entry.key "__proto__").0 same))))
          | inr differ ↦ differ
        ] in
      let (after, w', run, h) =
        rekey_from-IsRekeyed pairs (assign entry.key p out) v answers rest
          (λ m. ordinary (Memᴰ.tail m)) in
      (
        after,
        w',
        and_then-succeeded (to_public_result entry raw)
              (λ result.
                rekey_from configuration_error to_public_result pairs (assign entry.key result out))
              w v p e
            ∙ run,
        IsRekeyed-cons entry raw pairs out after p (λ m. fresh ∣ m ∣₁) (w, v, e)
            (subst (λ b. IsRekeyed pairs (if b then out else set entry.key p out) after) own_key h),
      )

  -- As many raw results as there are entries, different keys, none of them __proto__, and a conversion
  -- that succeeds: then rekeyOrderedResults succeeds, and under the key of every entry
  -- stands the result converted from the raw result at the entry's position.
  pub rekey_ordered_results-IsRekeyed :
      (operation : String) (entries : List (KeyedEntry Ready)) (raw_results : List RawResult)
      (w : World)
      → ((entry : KeyedEntry Ready) (raw : RawResult) (v : World)
          → (p : PublicResult) × (v' : World) × (to_public_result entry raw v ≡ (succeeded p, v')))
      → length raw_results ≡ length entries
      → Nodup (map (λ (e : KeyedEntry Ready). e.key) entries)
      → ¬ Memᴰ "__proto__" (map (λ (e : KeyedEntry Ready). e.key) entries)
      → (after : Map PublicResult) × (w' : World) × (rekey_ordered_results configuration_error
            to_public_result operation entries raw_results w
          ≡ (succeeded after, w'))
        × IsRekeyed (zip entries raw_results) [] after
  unfolding rekey_ordered_results
  rekey_ordered_results-IsRekeyed operation entries raw_results w answers long distinct ordinary =
      let same : nat_eq (length raw_results) (length entries) ≡ true = ground arith in
      let keys = subst Nodup (sym (keys-zip entries raw_results long)) distinct in
      let (after, w', run, h) =
        rekey_from-IsRekeyed (zip entries raw_results) [] w answers keys
          (λ m. ordinary (subst (Memᴰ "__proto__") (keys-zip entries raw_results long) m)) in
      (after, w', rw same run, h)

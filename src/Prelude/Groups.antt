-- ===== src/Prelude/Groups.antt =====
-- The loops that fill a Map with lists, `groups.set(key, [...(groups.get(key) ?? []), value])`.
use effect_opcua.Prelude.Tests.{if◌then◌else◌, Bool-cases}
use Prim.Native.String.{String}
use mathlib.Core.Path.{◌≡◌, sym, ◌∙◌}
use mathlib.Core.Option.{Option, none, some}
use mathlib.Core.List.{
  List, [], ◌∷◌, ◌++◌, append-nil, append_assoc, map, Memᴰ, Nodup, Nodup-nil, Nodup-cons,
}
use native.Mathlib.Omega.{arith}
use text.Mathlib.Text.{◌==◌}
use text.Mathlib.TextEquality.{eq_iff}
use text.Mathlib.TextPositions.{eq_refl}
use mathlib.Core.Logic.{inl, inr, ⊎_elim, ∥∥₁_elim}
use mathlib.Core.Bool.{false≢true}
use mathlib.Core.List.Memᴰ
use effect_opcua.Prelude.Lists.{length}
use Prim.Native.Nat.{◌≤◌}
use effect_opcua.Prelude.Maps.{Map, get, set, get-set}

module _ {ℓ} {V : Type ℓ} where
  abbrev pub or_empty : Option (List V) → List V
  or_empty none = []
  or_empty (some vs) = vs

  -- groups.get(key) ?? []
  abbrev pub items : String → Map (List V) → List V
  items k m = or_empty (get k m)

  unfoldable pub push : String → V → Map (List V) → Map (List V)
  push k v m = set k (items k m ++ v ∷ []) m

  -- The groups after the key-value pairs of a list.
  unfoldable pub group_from : Map (List V) → List (String × V) → Map (List V)
  group_from m [] = m
  group_from m ((k, v) ∷ kvs) = group_from (push k v m) kvs

  -- The values that a list of pairs holds at a key, in order.
  unfoldable pub values_at : String → List (String × V) → List V
  values_at k [] = []
  values_at k ((j, v) ∷ kvs) = if j == k then v ∷ values_at k kvs else values_at k kvs

  pub items-push :
      (k j : String) (v : V) (m : Map (List V))
      → items j (push k v m) ≡ (if k == j then items j m ++ v ∷ [] else items j m)
  unfolding push
  items-push k j v m = ground (arith, get-set k j (items k m ++ v ∷ []) m, eq_iff k j)

  -- A group holds the values that were pushed under its key, in order.
  pub items-group_from :
      (m : Map (List V)) (kvs : List (String × V)) (k : String)
      → items k (group_from m kvs) ≡ items k m ++ values_at k kvs
  unfolding group_from values_at
  items-group_from m [] k = simp append-nil
  items-group_from m ((j, v) ∷ kvs) k =
      items-group_from (push j v m) kvs k
      ∙ ground (arith, items-push j k v m, append_assoc (items k m) (v ∷ []) (values_at k kvs))

  pub mem-values_at :
      (k : String) (kvs : List (String × V))
      → Memᴰ k (map (λ (p : String × V). p.0) kvs)
      → 1 ≤ length (values_at k kvs)
  unfolding values_at
  mem-values_at k [] m = absurd (Memᴰ.not-nil m)
  mem-values_at k ((j, v) ∷ kvs) m = elim (Bool-cases (j == k)) [
    | inl same ↦ rw same (omega arith)
    | inr other ↦ rw other (
        ⊎_elim (λ e. absurd (false≢true (sym other ∙ (eq_iff j k).1 (sym e)))) (mem-values_at k kvs)
          (Memᴰ.cases_cons m))
  ]

  -- Where no key has two values, the keys are distinct.
  pub keys-Nodup :
      (kvs : List (String × V))
      → ((k : String) → length (values_at k kvs) ≤ 1)
      → Nodup (map (λ (p : String × V). p.0) kvs)
  unfolding values_at
  keys-Nodup [] h = Nodup-nil
  keys-Nodup ((j, v) ∷ kvs) h = Nodup-cons.1 (
    λ m.
        ∥∥₁_elim m (λ x y. absurd x)
          (λ d. absurd (omega (arith, mem-values_at j kvs d, rw eq_refl at (h j)))),
    keys-Nodup kvs (λ k. ground (arith, h k)),
  )

-- ===== src/Prelude/Unseen.antt =====
-- How many keys of a map are not in a set, the measure of a search that marks what it visits.
use effect_opcua.Prelude.Tests.{if◌then◌else◌}
use effect_opcua.Prelude.Lists.{length}
use Prim.Native.Nat.{ℕ, ◌+◌, ◌≤◌, ◌<◌}
use Prim.Native.String.{String}
use mathlib.Core.Path.{◌≡◌}
use mathlib.Core.Bool.{true, false}
use mathlib.Core.Option.{some}
use mathlib.Core.List.{List, [], ◌∷◌}
use native.Mathlib.Omega.{arith}
use text.Mathlib.TextEquality.{eq_iff}
use effect_opcua.Prelude.Sets.{has, add, has-add}
use effect_opcua.Prelude.Maps.{Map, get}

module _ {ℓ} {V : Type ℓ} where
  -- The keys that are not in the set.
  pub unseen : List String → Map V → ℕ
  unseen seen [] = 0
  unseen seen ((id, _) ∷ m) = (if has id seen then 0 else 1) + unseen seen m

  pub unseen-le-length : (seen : List String) (m : Map V) → unseen seen m ≤ length m
  unfolding unseen
  unseen-le-length seen [] = omega arith
  unseen-le-length seen ((id, _) ∷ m) = ground (arith, unseen-le-length seen m)

  pub unseen_mono :
      (a b : List String) (m : Map V)
      → ((x : String) → has x a ≡ true → has x b ≡ true)
      → unseen b m ≤ unseen a m
  unfolding unseen
  unseen_mono a b [] h = omega arith
  unseen_mono a b ((id, _) ∷ m) h = ground (arith, unseen_mono a b m h, h id)

  pub unseen-add :
      (k : String) (seen : List String) (m : Map V) (v : V)
      → has k seen ≡ false
      → get k m ≡ some v
      → unseen (add k seen) m < unseen seen m
  unfolding unseen get
  unseen-add k seen [] v new e = absurd (ground arith)
  unseen-add k seen ((id, w) ∷ m) v new e = ground (
    arith,
    unseen-add k seen m v new,
    unseen_mono seen (add k seen) m (λ x h. ground (arith, has-add k x seen)),
    has-add k id seen,
    eq_iff id k,
    eq_iff k id,
  )

-- ===== src/Prelude/Sets.antt =====
-- JavaScript's Set of strings: the elements in the order of their first insertion.
use effect_opcua.Prelude.Tests.{if◌then◌else◌}
use Prim.Native.String.{String}
use mathlib.Core.Path.{◌≡◌, refl}
use mathlib.Core.Bool.{Bool, true, false}
use mathlib.Core.List.{List, [], ◌∷◌}
use native.Mathlib.Omega.{arith}
use text.Mathlib.Text.{◌==◌}
use text.Mathlib.TextEquality.{eq_iff}

unfoldable pub has : String → List String → Bool
has k [] = false
has k (x ∷ xs) = if x == k then true else has k xs

unfoldable pub add : String → List String → List String
add k [] = k ∷ []
add k (x ∷ xs) = if x == k then x ∷ xs else x ∷ add k xs

-- A key is in the set exactly if it was, or is the one that is added.
pub has-add :
    (k j : String) (xs : List String) → has j (add k xs) ≡ (if k == j then true else has j xs)
unfolding has add
has-add k j [] = refl
has-add k j (x ∷ xs) = ground (arith, has-add k j xs, eq_iff x k, eq_iff x j, eq_iff k j)

-- ===== src/Prelude/Maps.antt =====
-- JavaScript's Map with string keys: the entries in the order of their first insertion.
use effect_opcua.Prelude.Tests.{if◌then◌else◌, Bool-cases}
use Prim.Native.String.{String}
use mathlib.Core.Path.{◌≡◌, refl, sym, ap, ◌∙◌}
use mathlib.Core.Option.{Option, none, some}
use mathlib.Core.List.{List, [], ◌∷◌, Memᴰ}
use mathlib.Core.List.Memᴰ
use mathlib.Core.Logic.{inl, inr, ⊎_elim}
use mathlib.Core.Bool.{false≢true}
use native.Mathlib.Omega.{arith}
use text.Mathlib.Text.{◌==◌}
use text.Mathlib.TextEquality.{eq_iff}

abbrev pub Map {ℓ} : Type ℓ → Type ℓ
Map V = List (String × V)

module _ {ℓ} {V : Type ℓ} where
  unfoldable pub get : String → Map V → Option V
  get k [] = none
  get k ((j, v) ∷ m) = if j == k then some v else get k m

  unfoldable pub set : String → V → Map V → Map V
  set k v [] = (k, v) ∷ []
  set k v ((j, w) ∷ m) = if j == k then (j, v) ∷ m else (j, w) ∷ set k v m

  pub get-set :
      (k j : String) (v : V) (m : Map V) → get j (set k v m) ≡ (if k == j then some v else get j m)
  unfolding get set
  get-set k j v [] = refl
  get-set k j v ((i, w) ∷ m) = ground (arith, get-set k j v m, eq_iff i k, eq_iff i j, eq_iff k j)

  -- What a key is bound to is an entry.
  pub mem_of_get : (k : String) (v : V) (m : Map V) → get k m ≡ some v → Memᴰ (k, v) m
  unfolding get
  mem_of_get k v [] h = cc
  mem_of_get k v ((j, w) ∷ m) h = elim (Bool-cases (j == k)) [
    | inl same ↦
        let key : j ≡ k = (eq_iff j k).0 same in
        let value : w ≡ v = ground arith in Memᴰ.head (λ i. (sym key i, sym value i))
    | inr other ↦ Memᴰ.tail (mem_of_get k v m (ground arith))
  ]

  -- A key with an entry is bound.
  pub get_of_mem : (k : String) (v : V) (m : Map V) → Memᴰ (k, v) m → (w : V) × (get k m ≡ some w)
  unfolding get
  get_of_mem k v [] h = absurd (Memᴰ.not-nil h)
  get_of_mem k v ((j, w) ∷ m) h = elim (Bool-cases (j == k)) [
    | inl same ↦ (w, rw same)
    | inr other ↦ rw other (
        ⊎_elim
          (λ e.
            absurd (false≢true (sym other ∙ (eq_iff j k).1 (ap (λ (p : String × V). p.0) (sym e)))))
          (get_of_mem k v m) (Memᴰ.cases_cons h))
  ]

-- ===== src/Client/Monitor/Weights.antt =====
-- Sums over lists: with the weight one they count all elements, with the weight of a key the elements
-- with that key.
use effect_opcua.Prelude.{
  ℕ, ◌+◌, String, List, [], ◌∷◌, ◌++◌, map, flat_map, Bool-cases, ◌≡◌, refl, ap, ◌∙◌, inl, inr,
  arith, ◌==◌,
}
use effect_opcua.Prelude.Maps.{Map, get, set}
use effect_opcua.Prelude.Groups.{group_from, push, items}

abbrev pub weigh : {A : Type 0} → (A → ℕ) → List A → ℕ
weigh f [] = 0
weigh f (x ∷ xs) = f x + weigh f xs

pub weigh-append :
    {A : Type 0} (f : A → ℕ) (xs ys : List A) → weigh f (xs ++ ys) ≡ weigh f xs + weigh f ys
weigh-append f [] ys = omega arith
weigh-append f (x ∷ xs) ys = omega (arith, weigh-append f xs ys)

pub weigh-map :
    {A B : Type 0} (f : B → ℕ) (g : A → B) (xs : List A)
    → weigh f (map g xs) ≡ weigh (λ x. f (g x)) xs
weigh-map f g [] = refl
weigh-map f g (x ∷ xs) = ap (λ n. f (g x) + n) (weigh-map f g xs)

pub weigh-flat_map :
    {A B : Type 0} (f : B → ℕ) (g : A → List B) (xs : List A)
    → weigh f (flat_map g xs) ≡ weigh (λ x. weigh f (g x)) xs
weigh-flat_map f g [] = refl
weigh-flat_map f g (x ∷ xs) =
    weigh-append f (g x) (flat_map g xs) ∙ ap (λ n. weigh f (g x) + n) (weigh-flat_map f g xs)

-- Pairs weigh as their keys do.
abbrev pub weigh_keys : {V : Type 0} → (String → ℕ) → List (String × V) → ℕ
weigh_keys f = weigh (λ (p : String × _). f p.0)

pub weigh_keys-append :
    {V : Type 0} (f : String → ℕ) (xs ys : List (String × V))
    → weigh_keys f (xs ++ ys) ≡ weigh_keys f xs + weigh_keys f ys
weigh_keys-append {V = V} f xs ys = weigh-append (λ (p : String × V). f p.0) xs ys

module _ {A : Type 0} (f : A → ℕ) where
  -- The weight of all lists of the groups.
  abbrev pub weigh_groups : Map (List A) → ℕ
  weigh_groups = weigh (λ (g : String × List A). weigh f g.1)

  weigh-set :
      (k : String) (xs : List A) (m : Map (List A))
      → weigh_groups (set k xs m) + weigh f (items k m) ≡ weigh_groups m + weigh f xs
  unfolding get set
  weigh-set k xs [] = omega arith
  weigh-set k xs ((j, ys) ∷ m) = elim (Bool-cases (j == k)) [
    | inl same ↦ rw same (omega arith)
    | inr other ↦ rw other (omega (arith, weigh-set k xs m))
  ]

  weigh-push :
      (k : String) (x : A) (m : Map (List A)) → weigh_groups (push k x m) ≡ weigh_groups m + f x
  unfolding push
  weigh-push k x m =
      omega (arith, weigh-set k (items k m ++ x ∷ []) m, weigh-append f (items k m) (x ∷ []))

  pub weigh-group_from :
      (m : Map (List A)) (kvs : List (String × A))
      → weigh_groups (group_from m kvs) ≡ weigh_groups m + weigh (λ (p : String × A). f p.1) kvs
  unfolding group_from
  weigh-group_from m [] = omega arith
  weigh-group_from m ((k, x) ∷ kvs) =
      omega (arith, weigh-group_from (push k x m) kvs, weigh-push k x m)

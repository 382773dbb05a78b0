-- ===== src/Prelude/Sort.antt =====
-- Array.prototype.sort, which is stable: `le a b` says that the comparator's answer is not positive.
use effect_opcua.Prelude.Tests.{if◌then◌else◌, Bool-cases}
use mathlib.Core.Bool.{Bool, true, false}
use mathlib.Core.Logic.{inl, inr, ⊎_elim}
use mathlib.Core.List.{List, [], ◌∷◌, Perm, Memᴰ}
use mathlib.Core.List.Perm
use mathlib.Core.List.Memᴰ
use mathlib.Core.Path.{◌≡◌, refl, ◌∙◌}
use native.Mathlib.Omega.{arith}
use effect_opcua.Prelude.Lists.{any}

module _ {ℓ} {A : Type ℓ} (le : A → A → Bool) where
  insert : A → List A → List A
  insert x [] = x ∷ []
  insert x (y ∷ ys) = if le x y then x ∷ (y ∷ ys) else y ∷ insert x ys

  unfoldable pub sort : List A → List A
  unfolding insert
  sort [] = []
  sort (x ∷ xs) = insert x (sort xs)

  insert-perm : (x : A) (ys : List A) → Perm (insert x ys) (x ∷ ys)
  unfolding insert
  insert-perm x [] = Perm.refl (x ∷ [])
  insert-perm x (y ∷ ys) = elim (Bool-cases (le x y)) [
    | inl h ↦ rw h (Perm.refl _)
    | inr h ↦ rw h (Perm.trans (Perm.cons y (insert-perm x ys)) (Perm.swap x y ys))
  ]

  -- Sorting only changes the order.
  pub sort-perm : (xs : List A) → Perm (sort xs) xs
  unfolding sort
  sort-perm [] = Perm.refl []
  sort-perm (x ∷ xs) = Perm.trans (insert-perm x (sort xs)) (Perm.cons x (sort-perm xs))

  any-insert :
      (p : A → Bool) (x : A) (ys : List A) → any p (insert x ys) ≡ (if p x then true else any p ys)
  unfolding insert
  any-insert p x [] = refl
  any-insert p x (y ∷ ys) = ground (arith, any-insert p x ys)

  -- Sorting changes no answer of `some`.
  pub any-sort : (p : A → Bool) (xs : List A) → any p (sort xs) ≡ any p xs
  unfolding sort
  any-sort p [] = refl
  any-sort p (x ∷ xs) = any-insert p x (sort xs) ∙ ground (arith, any-sort p xs)

  mem-branches :
      {z : A} (b : Bool) (x y : A) (ys l : List A)
      → (Memᴰ z l → Memᴰ z (x ∷ ys))
      → Memᴰ z (if b then x ∷ (y ∷ ys) else y ∷ l)
      → Memᴰ z (x ∷ (y ∷ ys))
  mem-branches true x y ys l step h = h
  mem-branches false x y ys l step h =
      ⊎_elim (λ e. Memᴰ.tail (Memᴰ.head e))
        (λ m. ⊎_elim Memᴰ.head (λ n. Memᴰ.tail (Memᴰ.tail n)) (Memᴰ.cases_cons (step m)))
        (Memᴰ.cases_cons h)

  mem-insert : {z : A} (x : A) (ys : List A) → Memᴰ z (insert x ys) → Memᴰ z (x ∷ ys)
  unfolding insert
  mem-insert x [] h = h
  mem-insert x (y ∷ ys) h = mem-branches (le x y) x y ys (insert x ys) (mem-insert x ys) h

  pub mem-sort : {z : A} (xs : List A) → Memᴰ z (sort xs) → Memᴰ z xs
  unfolding sort
  mem-sort [] h = h
  mem-sort (x ∷ xs) h =
      ⊎_elim Memᴰ.head (λ m. Memᴰ.tail (mem-sort xs m)) (Memᴰ.cases_cons (mem-insert x (sort xs) h))

  branches-mem :
      {z : A} (b : Bool) (x y : A) (ys l : List A)
      → (Memᴰ z (x ∷ ys) → Memᴰ z l)
      → Memᴰ z (x ∷ (y ∷ ys))
      → Memᴰ z (if b then x ∷ (y ∷ ys) else y ∷ l)
  branches-mem true x y ys l step h = h
  branches-mem false x y ys l step h =
      ⊎_elim (λ e. Memᴰ.tail (step (Memᴰ.head e)))
        (λ m. ⊎_elim Memᴰ.head (λ n. Memᴰ.tail (step (Memᴰ.tail n))) (Memᴰ.cases_cons m))
        (Memᴰ.cases_cons h)

  insert-mem : {z : A} (x : A) (ys : List A) → Memᴰ z (x ∷ ys) → Memᴰ z (insert x ys)
  unfolding insert
  insert-mem x [] h = h
  insert-mem x (y ∷ ys) h = branches-mem (le x y) x y ys (insert x ys) (insert-mem x ys) h

  pub sort-mem : {z : A} (xs : List A) → Memᴰ z xs → Memᴰ z (sort xs)
  unfolding sort
  sort-mem [] h = h
  sort-mem (x ∷ xs) h =
      insert-mem x (sort xs) (⊎_elim Memᴰ.head (λ m. Memᴰ.tail (sort-mem xs m)) (Memᴰ.cases_cons h))

-- ===== src/Client/Batch/Chunks.antt =====
-- chunksOf cuts the items into pieces of the given size, and runChunked keeps the order of the items.
use effect_opcua.Prelude.{
  ℕ, zero, suc, ◌+◌, ◌≤◌, ◌<◌, some, List, [], ◌∷◌, ◌++◌, length, take, drop, false, ltb, ◌≡◌, refl,
  sym, ap, ◌∙◌, inl, inr, Bool-cases, arith, All, length-drop, take-append-drop,
}
use effect_opcua.Client.Batch.{chunks_from, chunks_of, concat}

-- A request is never empty, and never longer than allowed.
abbrev pub Fits : {A : Type 0} → ℕ → List A → Type 0
Fits size c = (0 < length c) × (length c ≤ size)

drop-nil : {A : Type 0} (n : ℕ) (xs : List A) → length xs ≤ n → drop n xs ≡ []
drop-nil zero [] h = refl
drop-nil zero (x ∷ xs) h = absurd (omega arith)
drop-nil (suc n) [] h = refl
drop-nil (suc n) (x ∷ xs) h = drop-nil n xs (omega arith)

drop-drop : {A : Type 0} (m n k : ℕ) (xs : List A) → k ≡ n + m → drop k xs ≡ drop m (drop n xs)
drop-drop m zero k xs e = let same : k ≡ m = omega arith in ap (λ i. drop i xs) same
drop-drop m (suc n) zero xs e = absurd (omega arith)
drop-drop m (suc n) (suc k) [] e = sym (drop-nil m [] (omega arith))
drop-drop m (suc n) (suc k) (x ∷ xs) e = drop-drop m n k xs (omega arith)

length-take-le :
    {A : Type 0} (n : ℕ) (xs : List A)
    → (length (take n xs) ≤ n) × (0 < n → 0 < length xs → 0 < length (take n xs))
length-take-le zero xs = (omega arith, λ p q. omega arith)
length-take-le (suc n) [] = (omega arith, λ p q. omega arith)
length-take-le (suc n) (x ∷ xs) = (omega (arith, length-take-le n xs), λ p q. omega arith)

module _ {A : Type 0} (items : List A) (size : ℕ) where
  chunks_from-concat :
      (fuel index : ℕ)
      → 0 < size
      → length items ≤ fuel + index
      → (cs : List (List A)) × (chunks_from items size fuel index ≡ some cs)
        × (concat cs ≡ drop index items)
        × All (Fits size) cs
  unfolding chunks_from
  chunks_from-concat zero index pos enough =
      let none_left : ltb index (length items) ≡ false = ground arith in
      ([], rw none_left refl, sym (drop-nil index items (omega arith)), tt)
  chunks_from-concat (suc fuel) index pos enough =
      let (cs, e, joined, fit) = chunks_from-concat fuel (index + size) pos (omega arith) in
      let (at_most, some_left) = length-take-le size (drop index items) in
      elim (Bool-cases (ltb index (length items))) [
        | inl more ↦
            let within : index < length items = ground arith in
            (
              take size (drop index items) ∷ cs,
              rw (more, e) refl,
              ap (λ l. take size (drop index items) ++ l)
                    (joined ∙ drop-drop size index (index + size) items refl)
                  ∙ take-append-drop size (drop index items),
              ((some_left pos (omega (arith, length-drop index items)), at_most), fit),
            )
        | inr over ↦ ([], rw over refl, sym (drop-nil index items (ground arith)), tt)
      ]

-- chunksOf with a positive size ends; its chunks make up the items in their order, and each has at
-- least one item and at most `size`.
pub chunks_of-concat :
    {A : Type 0} (items : List A) (size : ℕ)
    → 0 < size
    → (cs : List (List A)) × (chunks_of items size ≡ some cs)
      × (concat cs ≡ items)
      × All (Fits size) cs
unfolding chunks_of
chunks_of-concat items size pos = chunks_from-concat items size (length items) 0 pos (omega arith)

-- ===== src/Codegen/Recursion/Decides.antt =====
-- `reaches` decides reachability: one unit of fuel for each id with dependencies, and one more, is
-- enough, and the answer is `true` exactly if there is a walk.
use effect_opcua.Prelude.{
  ℕ, zero, suc, ◌<◌, String, Option, none, some, List, [], ◌∷◌, Bool, true, false, ◌==◌, ◌≡◌, refl,
  ◌↔◌, ◌⊎◌, inl, inr, ⊎_elim, Memᴰ, Bool-cases, arith, length,
}
use effect_opcua.Prelude.Sets.{has, add}
use effect_opcua.Prelude.Maps.{Map, get}
use effect_opcua.Prelude.Unseen.{unseen, unseen-le-length, unseen_mono, unseen-add}
use effect_opcua.Prelude.Groups.{or_empty}
use effect_opcua.Codegen.Recursion.{Answer, some_reaches, reaches}
use effect_opcua.Codegen.Recursion.Walks.{Leads, here, step, reaches-true, reaches-false}

module _ (target : String) (dependencies : Map (List String)) where
  abbrev Returns : Answer → Type 0
  Returns a = (r : Bool × List String) × (a ≡ some r)

  -- One call with enough fuel, for the calls that `some` makes.
  abbrev EnoughFuel : ℕ → Type 0
  EnoughFuel fuel =
      (x : String) (seen : List String)
      → unseen seen dependencies < fuel
      → Returns (reaches target dependencies fuel x seen)

  some_reaches-Returns :
      (fuel : ℕ)
      → EnoughFuel fuel
      → (xs seen : List String) → unseen seen dependencies < fuel
      → Returns (some_reaches (reaches target dependencies fuel) xs seen)
  unfolding some_reaches
  some_reaches-Returns fuel enough [] seen h = ((false, seen), refl)
  some_reaches-Returns fuel enough (x ∷ xs) seen h =
      let ((b, mid), e) = enough x seen h in
      by_answer b mid e (λ kept.
        some_reaches-Returns fuel enough xs mid
          (omega (arith, unseen_mono seen mid dependencies kept)))
    where
      by_answer :
          (b : Bool) (mid : List String)
          → reaches target dependencies fuel x seen ≡ some (b, mid)
          → (((y : String) → has y seen ≡ true → has y mid ≡ true)
              → Returns (some_reaches (reaches target dependencies fuel) xs mid))
          → Returns (some_reaches (reaches target dependencies fuel) (x ∷ xs) seen)
      by_answer true mid e rest = ((true, mid), ground arith)
      by_answer false mid e rest =
          let (r, e') = rest ((reaches-false target dependencies fuel x seen mid e).0.kept) in
          (r, ground arith)

  reaches_returns : (fuel : ℕ) → EnoughFuel fuel
  unfolding reaches
  reaches_returns zero x seen h = absurd (omega arith)
  reaches_returns (suc fuel) x seen h =
      by_entry (get x dependencies) refl (Bool-cases (x == target)) (Bool-cases (has x seen)) (
        some_reaches-Returns fuel (reaches_returns fuel) (or_empty (get x dependencies))
          (add x seen))
    where
      by_entry :
          (o : Option (List String))
          → get x dependencies ≡ o
          → (x == target ≡ true) ⊎ (x == target ≡ false)
          → (has x seen ≡ true) ⊎ (has x seen ≡ false)
          → (unseen (add x seen) dependencies < fuel
              → Returns (
                  some_reaches
                    (reaches target dependencies fuel)
                    (or_empty (get x dependencies))
                    (add x seen)))
          → Returns (reaches target dependencies (suc fuel) x seen)
      by_entry o e (inl same) _ rest = ((true, seen), ground arith)
      by_entry o e (inr differ) (inl old) rest = ((false, seen), ground arith)
      by_entry none e (inr differ) (inr new) rest = ((false, add x seen), rw (differ, new, e))
      by_entry (some v) e (inr differ) (inr new) rest =
          let (r, e') = rest (omega (arith, unseen-add x seen dependencies v new e)) in
          (r, ground arith)

  -- From a set of seen ids that the search has not entered, no walk leads to the target.
  no_walk :
      (after : List String)
      → ((x : String)
          → has x after ≡ true
          → (x ≡ target → ⊥)
            × ((y : String) → Memᴰ y (or_empty (get x dependencies)) → has y after ≡ true))
      → {x : String} → Leads dependencies x target
      → has x after ≡ true
      → ⊥
  no_walk after closed {x} here h = (closed x h).0 refl
  no_walk after closed {x} (step {b = b} m walk) h = no_walk after closed walk ((closed x h).1 b m)

  walk_of_answer :
      (b : Bool) (current : String) (fuel : ℕ) (after : List String)
      → reaches target dependencies fuel current [] ≡ some (b, after)
      → (b ≡ true) ↔ Leads dependencies current target
  unfolding has
  walk_of_answer true current fuel after e =
      (λ _. reaches-true target dependencies fuel current [] after e, λ _. refl)
  walk_of_answer false current fuel after e =
      let (covers, marked) = reaches-false target dependencies fuel current [] after e in
      (
        λ p. cc,
        λ walk. absurd (
            no_walk after
              (λ x h. ⊎_elim (λ nothing. absurd (ground arith)) (λ new. new) (covers.fresh x h))
              walk marked),
      )

  -- With fuel for every id that has dependencies, the search from an empty set returns, and answers
  -- `true` exactly if a walk along the dependencies leads from `current` to the target.
  pub reaches_decides :
      (current : String) (fuel : ℕ)
      → length dependencies < fuel
      → (b : Bool) × (after : List String) × (reaches target dependencies fuel current []
          ≡ some (b, after))
        × ((b ≡ true) ↔ Leads dependencies current target)
  reaches_decides current fuel h =
      let ((b, after), e) =
        reaches_returns fuel current [] (omega (arith, unseen-le-length [] dependencies)) in
      (b, after, e, walk_of_answer b current fuel after e)

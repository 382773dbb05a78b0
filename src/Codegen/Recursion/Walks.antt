-- ===== src/Codegen/Recursion/Walks.antt =====
-- What the two answers of `reaches` mean, whatever the fuel: `true` comes with a walk to the target,
-- and after `false` every new id of the `seen` set has all that it depends on in that set.
use effect_opcua.Prelude.{
  ℕ, zero, suc, String, none, some, List, [], ◌∷◌, Bool, true, false, ◌==◌, ◌≡◌, ◌≢◌, refl, subst,
  ◌⊎◌, inl, inr, ⊎_elim, Memᴰ, mem-cons_iff, mem-nil, Bool-cases, arith, eq_iff, eq_refl,
}
use effect_opcua.Prelude.Sets.{has, add, has-add}
use effect_opcua.Prelude.Maps.{Map, get}
use effect_opcua.Prelude.Groups.{or_empty}
use effect_opcua.Codegen.Recursion.{Answer, some_reaches, reaches}

-- The walks along the dependencies.
pub data Leads (dependencies : Map (List String)) : String → String → Type 0 where
  here : {a : String} → Leads dependencies a a
  step :
      {a b c : String}
      → Memᴰ b (or_empty (get a dependencies))
      → Leads dependencies b c
      → Leads dependencies a c

-- How `some` goes on after the first call.
some_reaches-cons :
    (visit : String → List String → Answer) (x : String) (xs seen after : List String) (b : Bool)
    → some_reaches visit (x ∷ xs) seen ≡ some (b, after)
    → (b ≡ true) × (visit x seen ≡ some (true, after))
      ⊎ ((mid : List String) × (visit x seen ≡ some (false, mid))
          × (some_reaches visit xs mid ≡ some (b, after)))
unfolding some_reaches
some_reaches-cons visit x xs seen after b e = by_answer (visit x seen) refl
  where
    by_answer :
        (a : Answer)
        → visit x seen ≡ a
        → (b ≡ true) × (visit x seen ≡ some (true, after))
          ⊎ ((mid : List String) × (visit x seen ≡ some (false, mid))
              × (some_reaches visit xs mid ≡ some (b, after)))
    by_answer none h = absurd (ground arith)
    by_answer (some (true, mid)) h = inl (ground arith, ground arith)
    by_answer (some (false, mid)) h = inr (mid, h, ground arith)

some_reaches-true :
    {P : String → Type 0} (visit : String → List String → Answer)
    → ((x : String) (seen after : List String) → visit x seen ≡ some (true, after) → P x)
    → (xs seen after : List String) → some_reaches visit xs seen ≡ some (true, after)
    → (x : String) × Memᴰ x xs × P x
unfolding some_reaches
some_reaches-true visit sound [] seen after e = absurd (ground arith)
some_reaches-true visit sound (x ∷ xs) seen after e =
    ⊎_elim (λ (_, h). (x, Memᴰ.head refl, sound x seen after h))
      (λ (mid, _, e').
        let (y, m, p) = some_reaches-true visit sound xs mid after e' in (y, Memᴰ.tail m, p))
      (some_reaches-cons visit x xs seen after true e)

module _ (target : String) (dependencies : Map (List String)) where
  -- Between two `seen` sets: nothing is lost, and what is new is not the target and has all its
  -- dependencies in the later set.
  pub record Covers (seen after : List String) : Type 0 where
    pub kept : (x : String) → has x seen ≡ true → has x after ≡ true
    pub fresh :
        (x : String)
        → has x after ≡ true
        → (has x seen ≡ true)
          ⊎ (x ≢ target)
            × ((y : String) → Memᴰ y (or_empty (get x dependencies)) → has y after ≡ true)

  Covers-refl : (seen : List String) → Covers seen seen
  Covers-refl seen = record { kept = λ x h. h; fresh = λ x h. inl h }

  Covers-trans : {a b c : List String} → Covers a b → Covers b c → Covers a c
  Covers-trans h k = record {
    kept = λ x p. k.kept x (h.kept x p);
    fresh = λ x p.
        ⊎_elim
          (λ old. ⊎_elim inl (λ (ne, all). inr (ne, λ y m. k.kept y (all y m))) (h.fresh x old)) inr
          (k.fresh x p);
  }

  some_reaches-false :
      (visit : String → List String → Answer)
      → ((x : String) (seen after : List String)
          → visit x seen ≡ some (false, after)
          → Covers seen after × (has x after ≡ true))
      → (xs seen after : List String) → some_reaches visit xs seen ≡ some (false, after)
      → Covers seen after × ((x : String) → Memᴰ x xs → has x after ≡ true)
  unfolding some_reaches
  some_reaches-false visit covers [] seen after e =
      let same : seen ≡ after = ground arith in
      (subst (Covers seen) same (Covers-refl seen), λ x m. absurd (mem-nil m))
  some_reaches-false visit covers (x ∷ xs) seen after e =
      ⊎_elim (λ (t, _). absurd (ground arith))
        (λ (mid, h, e').
          let (first, marked) = covers x seen mid h in
          let (rest, all) = some_reaches-false visit covers xs mid after e' in
          (
            Covers-trans first rest,
            λ y m.
                ⊎_elim (λ same. rw same (rest.kept x marked)) (all y) ((mem-cons_iff y x xs).0 m),
          ))
        (some_reaches-cons visit x xs seen after false e)

  -- The set that the call of `some` starts from has `current`, whose dependencies it then covers.
  Covers-add :
      (current : String) (seen after : List String)
      → current ≢ target
      → Covers (add current seen) after
      → ((y : String) → Memᴰ y (or_empty (get current dependencies)) → has y after ≡ true)
      → Covers seen after
  Covers-add current seen after ne h all = record {
    kept = λ x p. h.kept x (ground (arith, has-add current x seen));
    fresh = λ x p.
        ⊎_elim
          (λ old. elim (Bool-cases (current == x)) [
            | inl same ↦
                let key : current ≡ x = (eq_iff current x).0 same in
                inr (
                  subst
                    (λ z.
                      (z ≢ target)
                      × ((y : String)
                          → Memᴰ y (or_empty (get z dependencies))
                          → has y after ≡ true))
                    key (ne, all))
            | inr other ↦ inl (ground (arith, has-add current x seen))
          ])
          inr (h.fresh x p);
  }

  -- A `true` answer comes with a walk to the target.
  pub reaches-true :
      (fuel : ℕ) (current : String) (seen after : List String)
      → reaches target dependencies fuel current seen ≡ some (true, after)
      → Leads dependencies current target
  unfolding reaches
  reaches-true zero current seen after e = absurd (ground arith)
  reaches-true (suc fuel) current seen after e = elim (Bool-cases (current == target)) [
    | inl same ↦ subst (Leads dependencies current) ((eq_iff current target).0 same) here
    | inr differ ↦
        let (next, m, walk) =
          some_reaches-true {P = λ x. Leads dependencies x target}
            (reaches target dependencies fuel) (reaches-true fuel)
            (or_empty (get current dependencies)) (add current seen) after (ground arith) in
        step m walk
  ]

  -- After a `false` answer the id and all that it depends on, further and further, were seen.
  pub reaches-false :
      (fuel : ℕ) (current : String) (seen after : List String)
      → reaches target dependencies fuel current seen ≡ some (false, after)
      → Covers seen after × (has current after ≡ true)
  unfolding reaches
  reaches-false zero current seen after e = absurd (ground arith)
  reaches-false (suc fuel) current seen after e = elim (Bool-cases (has current seen)) [
    | inl old ↦
        let same : seen ≡ after = ground arith in
        (subst (Covers seen) same (Covers-refl seen), subst (λ l. has current l ≡ true) same old)
    | inr new ↦
        let (h, all) =
          some_reaches-false (reaches target dependencies fuel) (reaches-false fuel)
            (or_empty (get current dependencies)) (add current seen) after (ground arith) in
        let differ : current ≢ target = λ p. cc ((eq_iff current target).1 p) in
        (
          Covers-add current seen after differ h all,
          h.kept current (ground (arith, has-add current current seen, eq_refl current)),
        )
  ]

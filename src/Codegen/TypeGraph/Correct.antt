-- ===== src/Codegen/TypeGraph/Correct.antt =====
-- What the worklist collects: the definitions of exactly the data types that the variables reach.
use mathlib.Core.List.{append-nil}
use effect_opcua.Prelude.{
  ◌+◌, String, Bool, ◌≡◌, refl, subst, true, false, Option, none, some, List, [], ◌∷◌, ◌++◌, ◌==◌,
  ◌⊎◌, ◌↔◌, inl, inr, ⊎_elim, Memᴰ, mem-cons_iff, mem-append_iff, mem-nil, arith, eq_iff, length,
  Bool-cases, if◌then◌else◌,
}
use effect_opcua.Prelude.Sets.{has, add, has-add}
use effect_opcua.Prelude.Maps.{Map, get, get-set}
use effect_opcua.Codegen.Issues.{Severity}
use effect_opcua.Codegen.Types.{
  DataTypeDefinition, DefinitionResult, success, missing, unsupported, failure, SurfaceNode,
}
use effect_opcua.Codegen.TypeGraph.{
  Walk, done, dependencies, visit, round, total_width, roots, start, reachable_definitions,
}
use effect_opcua.Codegen.TypeGraph.Work.{walk_rule, reachable_definitions_ends}

-- The data types that the variables reach: theirs, and those of the fields of a reached structure
-- whose definition could be read.
pub data Reached (results : Map DefinitionResult) (from : List String) : String → Type 0 where
  of_variable : {id : String} → Memᴰ id from → Reached results from id
  of_field :
      {id field : String} (definition : DataTypeDefinition)
      → Reached results from id
      → get id results ≡ some (success definition)
      → Memᴰ field (dependencies definition)
      → Reached results from field

abbrev definition_of : Option DefinitionResult → Option DataTypeDefinition
definition_of (some (success definition)) = some definition
definition_of _ = none

-- The ids that a result adds to the queue.
abbrev added : Option DefinitionResult → List String
added (some (success definition)) = dependencies definition
added _ = []

abbrev recorded :
    Option DataTypeDefinition → Bool → Option DataTypeDefinition → Option DataTypeDefinition
recorded none same old = old
recorded (some d) same old = if same then some d else old

Reached-added :
    {results : Map DefinitionResult} {from : List String} {id v : String}
    (o : Option DefinitionResult)
    → Reached results from id
    → get id results ≡ o
    → Memᴰ v (added o)
    → Reached results from v
Reached-added (some (success d)) r e m = of_field d r e m
Reached-added none r e m = absurd (mem-nil m)
Reached-added (some (missing reason)) r e m = absurd (mem-nil m)
Reached-added (some (unsupported reason)) r e m = absurd (mem-nil m)
Reached-added (some (failure reason)) r e m = absurd (mem-nil m)

module _ (severity : Severity) (results : Map DefinitionResult) (from : List String) where
  record Inv (w : Walk) : Type 0 where
    queued : (v : String) → Memᴰ v w.queue → Reached results from v
    sound : (v : String) → has v w.seen ≡ true → Reached results from v
    started : (v : String) → Memᴰ v from → Memᴰ v w.queue ⊎ (has v w.seen ≡ true)
    closed :
        (u v : String)
        → has u w.seen ≡ true
        → Memᴰ v (added (get u results))
        → Memᴰ v w.queue ⊎ (has v w.seen ≡ true)
    collected :
        (v : String)
        → get v w.definitions ≡ (if has v w.seen then definition_of (get v results) else none)

  queue-visit :
      (id : String) (o : Option DefinitionResult) (w : Walk)
      → (visit severity id o w).queue ≡ w.queue ++ added o
  unfolding visit
  queue-visit id none w = simp append-nil
  queue-visit id (some (missing reason)) w = simp append-nil
  queue-visit id (some (unsupported reason)) w = simp append-nil
  queue-visit id (some (failure reason)) w = simp append-nil
  queue-visit id (some (success d)) w = refl

  seen-visit :
      (id : String) (o : Option DefinitionResult) (w : Walk) → (visit severity id o w).seen ≡ w.seen
  unfolding visit
  seen-visit id o w = ground arith

  get-visit :
      (id v : String) (o : Option DefinitionResult) (w : Walk)
      → get v (visit severity id o w).definitions
        ≡ recorded (definition_of o) (id == v) (get v w.definitions)
  unfolding visit
  get-visit id v none w = refl
  get-visit id v (some (missing reason)) w = refl
  get-visit id v (some (unsupported reason)) w = refl
  get-visit id v (some (failure reason)) w = refl
  get-visit id v (some (success d)) w = get-set id v d w.definitions

  -- A round moves the head of the queue to the seen ids and queues what it adds.
  mem-queue-round :
      (id : String) (rest : List String) (w : Walk) (v : String)
      → Memᴰ v (round severity results id rest w).queue
        ↔ (Memᴰ v rest ⊎ (has id w.seen ≡ false) × Memᴰ v (added (get id results)))
  unfolding round
  mem-queue-round id rest w v =
      let w' = record w { queue = rest; seen = add id w.seen } in
      elim (Bool-cases (has id w.seen)) [
        | inl old ↦ rw old (inl, ⊎_elim (λ m. m) (λ new. cc (new.0)))
        | inr new ↦ rw new (
            rw (queue-visit id (get id results) w')
              (ground (arith, mem-append_iff v rest (added (get id results)))))
      ]

  has-seen-round :
      (id : String) (rest : List String) (w : Walk) (v : String)
      → has v (round severity results id rest w).seen ≡ (if id == v then true else has v w.seen)
  unfolding round
  has-seen-round id rest w v = ground (
    arith,
    seen-visit id (get id results) (record w { queue = rest; seen = add id w.seen }),
    has-add id v w.seen,
    eq_iff id v,
  )

  definitions-round :
      (id : String) (rest : List String) (w : Walk) (v : String)
      → get v (round severity results id rest w).definitions ≡ (
          if has id w.seen
          then get v w.definitions
          else recorded (definition_of (get id results)) (id == v) (get v w.definitions))
  unfolding round
  definitions-round id rest w v =
      ground
        (arith, get-visit id v (get id results) (record w { queue = rest; seen = add id w.seen }))

  collected-round :
      (id : String) (rest : List String) (w : Walk) (v : String)
      → get v w.definitions ≡ (if has v w.seen then definition_of (get v results) else none)
      → get v (round severity results id rest w).definitions
        ≡ (if (if id == v then true else has v w.seen) then definition_of (get v results) else none)
  collected-round id rest w v h = ground (arith, definitions-round id rest w v, eq_iff id v)

  Inv-round :
      (w : Walk) (id : String) (rest : List String)
      → w.queue ≡ id ∷ rest
      → Inv w
      → Inv (round severity results id rest w)
  Inv-round w id rest e h =
      let queue = λ (v : String). mem-queue-round id rest w v in
      let seen = λ (v : String). has-seen-round id rest w v in
      let here : Reached results from id = h.queued id (simp e (Memᴰ.head refl)) in
      record {
        queued = λ v m.
            ⊎_elim (λ old. h.queued v (simp e (Memᴰ.tail old)))
              (λ new. Reached-added (get id results) here refl new.1) ((queue v).0 m);
        sound = λ v m. elim (Bool-cases (id == v)) [
          | inl same ↦ subst (Reached results from) ((eq_iff id v).0 same) here
          | inr other ↦ h.sound v (ground (arith, seen v))
        ];
        started = λ v m.
            ground (arith, queue v, seen v, h.started v, mem-cons_iff v id rest, eq_iff id v);
        closed = λ u v m a. ground (
          arith,
          queue v,
          seen v,
          seen u,
          h.closed u v,
          mem-cons_iff v id rest,
          eq_iff id u,
          eq_iff id v,
        );
        collected = λ v. rw (seen v) (collected-round id rest w v (h.collected v));
      }

  Inv-start : Inv (start from)
  unfolding has get
  Inv-start = record {
    queued = λ v m. of_variable m;
    sound = λ v m. cc;
    started = λ v m. inl m;
    closed = λ u v m a. cc;
    collected = λ v. refl;
  }

  -- With an empty queue all that is reached was seen.
  complete :
      {t : Walk} {v : String} → Inv t → t.queue ≡ [] → Reached results from v → has v t.seen ≡ true
  complete {v} h e (of_variable m) =
      ⊎_elim (λ q. absurd (mem-nil (subst (Memᴰ v) e q))) (λ s. s) (h.started v m)
  complete {v} h e (of_field {id} d r read m) =
      ⊎_elim (λ q. absurd (mem-nil (subst (Memᴰ v) e q))) (λ s. s)
        (h.closed id v (complete h e r) (rw read m))

definition_of-eq-some :
    (o : Option DefinitionResult) (d : DataTypeDefinition)
    → (definition_of o ≡ some d) ↔ (o ≡ some (success d))
definition_of-eq-some o d = (λ e. ground arith, λ e. ground arith)

-- The loop of reachableDefinitions ends, and the map that it returns holds a definition for an id
-- exactly if the variables reach that id and the definition was read for it.
pub reachable_definitions_correct :
    (severity : Severity) (variables : List SurfaceNode) (results : Map DefinitionResult)
    → (t : Walk) × (reachable_definitions severity variables results ≡ done t)
      × ((id : String) (d : DataTypeDefinition)
          → (get id t.definitions ≡ some d)
            ↔ (Reached results (roots variables) id × (get id results ≡ some (success d))))
unfolding reachable_definitions
reachable_definitions_correct severity variables results =
    let (t, ends) = reachable_definitions_ends severity variables results in
    let from = roots variables in
    let (inv, empty) =
      walk_rule severity results (Inv severity results from) (Inv-round severity results from)
        (length from + total_width results) (start from) t (Inv-start severity results from) ends in
    (
      t,
      ends,
      λ id d.
          let sound = inv.sound id in
          let full = λ (r : Reached results from id). complete severity results from inv empty r in
          let meaning = definition_of-eq-some (get id results) d in
          elim (Bool-cases (has id t.seen)) [
            | inl seen ↦ (
              λ e. (sound seen, meaning.0 (cc (inv.collected id))),
              λ (r, e). ground (arith, inv.collected id, meaning),
            )
            | inr new ↦ (λ e. absurd (ground (arith, inv.collected id)), λ (r, e). cc (full r))
          ],
    )

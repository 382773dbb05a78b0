-- ===== src/Client/Metadata/BuiltIn/Resolved.antt =====
-- resolveBuiltInDataType ends on every finite hierarchy, and each of its outcomes is what the hierarchy
-- says.
use effect_opcua.Prelude.{
  ℕ, zero, suc, ◌<◌, String, Option, none, some, List, [], true, false, ◌==◌, ◌≡◌, refl, sym, subst,
  inl, inr, arith, length, Bool-cases, eq_iff,
}
use effect_opcua.Prelude.Sets.{has, add, has-add}
use effect_opcua.Prelude.Maps.{Map, get}
use effect_opcua.Prelude.Unseen.{unseen, unseen-le-length, unseen-add}
use effect_opcua.Client.Effect.{Exit, succeeded, failed}
use effect_opcua.Client.Metadata.BuiltIn.{
  NodeId, Numbers, ResolveError, hierarchy_cycle, unresolved, service_error,
  built_in_data_type_from_node_id, ascend, resolve_step, resolve_loop, resolve_built_in_data_type,
}

module _ {Cause : Type 0} (numbers : Numbers) (browse : NodeId → Exit Cause (Option NodeId)) where
  -- The second data type is above the first, or the same, and none below it is built in.
  pub data Ascends : NodeId → NodeId → Type 0 where
    stay : {a : NodeId} → Ascends a a
    up :
        {a b c : NodeId}
        → Ascends a b
        → built_in_data_type_from_node_id numbers b ≡ none
        → browse b ≡ succeeded (some c)
        → Ascends a c

  -- What an outcome says of the hierarchy above a data type. They exclude each other.
  abbrev pub Explains : NodeId → Exit (ResolveError Cause) ℕ → Type 0
  Explains a (succeeded built_in) =
      (b : NodeId) × Ascends a b × (built_in_data_type_from_node_id numbers b ≡ some built_in)
  Explains a (failed (hierarchy_cycle text key)) =
      (b c : NodeId) × Ascends a b
      × (built_in_data_type_from_node_id numbers b ≡ none)
      × (browse b ≡ succeeded (some c))
      × Ascends c b
      × (text ≡ a.text)
      × (key ≡ b.text)
  Explains a (failed (unresolved text)) =
      (b : NodeId) × Ascends a b
      × (built_in_data_type_from_node_id numbers b ≡ none)
      × (browse b ≡ succeeded none)
      × (text ≡ a.text)
  Explains a (failed (service_error cause)) =
      (b : NodeId) × Ascends a b
      × (built_in_data_type_from_node_id numbers b ≡ none)
      × (browse b ≡ failed cause)

  -- A visited data type was reached, is not built in, and its super type leads to the current one.
  abbrev Below : NodeId → NodeId → String → Type 0
  Below a current key =
      (b c : NodeId) × (key ≡ b.text)
      × Ascends a b
      × (built_in_data_type_from_node_id numbers b ≡ none)
      × (browse b ≡ succeeded (some c))
      × Ascends c current

  -- The next visited set is below the next data type.
  Below-add :
      (a current next : NodeId) (visited : List String)
      → Ascends a current
      → built_in_data_type_from_node_id numbers current ≡ none
      → browse current ≡ succeeded (some next)
      → ((key : String) → has key visited ≡ true → Below a current key)
      → (key : String) → has key (add current.text visited) ≡ true
      → Below a next key
  Below-add a current next visited here plain above below key h =
      elim (Bool-cases (current.text == key)) [
        | inl same ↦
            (current, next, sym ((eq_iff current.text key).0 same), here, plain, above, stay)
        | inr other ↦
            let (b, c, same, there, none_there, super, way) =
              below key (ground (arith, has-add current.text key visited)) in
            (b, c, same, there, none_there, super, up way plain above)
      ]

  module _ {V : Type 0} (a : NodeId) (known : Map V)
      (texts_differ : (b c : NodeId) → Ascends a b → Ascends a c → b.text ≡ c.text → b ≡ c)
      (knows : (b c : NodeId)
        → browse b ≡ succeeded (some c)
        → (v : V) × (get c.text known ≡ some v)) where
    -- The loop returned, and rightly.
    abbrev Explained : Option (Exit (ResolveError Cause) ℕ) → Type 0
    Explained o = (r : Exit (ResolveError Cause) ℕ) × (o ≡ some r) × Explains a r

    Explained-ascend :
        (current : NodeId) (answer : Exit Cause (Option NodeId))
        (next : NodeId → Option (Exit (ResolveError Cause) ℕ))
        → Ascends a current
        → built_in_data_type_from_node_id numbers current ≡ none
        → browse current ≡ answer
        → ((c : NodeId) → answer ≡ succeeded (some c) → Explained (next c))
        → Explained (ascend numbers browse a answer next)
    unfolding ascend
    Explained-ascend current (failed cause) next way plain e rest =
        (failed (service_error cause), refl, (current, way, plain, e))
    Explained-ascend current (succeeded none) next way plain e rest =
        (failed (unresolved a.text), refl, (current, way, plain, e, refl))
    Explained-ascend current (succeeded (some c)) next way plain e rest = rest c refl

    Explained-cycle :
        (current : NodeId)
        → Ascends a current
        → built_in_data_type_from_node_id numbers current ≡ none
        → Below a current current.text
        → Explains a (failed (hierarchy_cycle a.text current.text))
    Explained-cycle current way plain (b, c, same, there, _, super, back) =
        let e = texts_differ b current there way (sym same) in
        (
          current,
          c,
          way,
          plain,
          subst (λ n. browse n ≡ succeeded (some c)) e super,
          back,
          refl,
          refl,
        )

    -- One round: `next` is the rest of the loop.
    Explained-resolve_step :
        (current : NodeId) (visited : List String)
        (next : NodeId → Option (Exit (ResolveError Cause) ℕ)) (o : Option ℕ)
        → built_in_data_type_from_node_id numbers current ≡ o
        → Ascends a current
        → ((key : String) → has key visited ≡ true → Below a current key)
        → ((c : NodeId)
            → has current.text visited ≡ false
            → browse current ≡ succeeded (some c)
            → Ascends a c
            → ((key : String) → has key (add current.text visited) ≡ true → Below a c key)
            → Explained (next c))
        → Explained (resolve_step numbers browse a current o visited next)
    unfolding resolve_step
    Explained-resolve_step current visited next (some built_in) e way below rest =
        (succeeded built_in, refl, (current, way, e))
    Explained-resolve_step current visited next none e way below rest =
        elim (Bool-cases (has current.text visited)) [
          | inl seen ↦ rw seen (
            failed (hierarchy_cycle a.text current.text),
            refl,
            Explained-cycle current way e (below current.text seen),
          )
          | inr new ↦ rw new (
              Explained-ascend current (browse current) next way e refl (λ c super.
                rest c new super (up way e super)
                  (Below-add a current c visited way e super below)))
        ]

    Explained-resolve_loop :
        (fuel : ℕ) (current : NodeId) (visited : List String) (v : V)
        → get current.text known ≡ some v
        → unseen visited known < fuel
        → Ascends a current
        → ((key : String) → has key visited ≡ true → Below a current key)
        → Explained (resolve_loop numbers browse a fuel current visited)
    unfolding resolve_loop
    Explained-resolve_loop zero current visited v there enough way below = absurd (omega arith)
    Explained-resolve_loop (suc fuel) current visited v there enough way below =
        Explained-resolve_step current visited
          (λ c. resolve_loop numbers browse a fuel c (add current.text visited))
          (built_in_data_type_from_node_id numbers current) refl way below
          (λ c new super way' below'.
            let (u, at_c) = knows current c super in
            Explained-resolve_loop fuel c (add current.text visited) u at_c
              (omega (arith, unseen-add current.text visited known v new there)) way' below')

    -- If the server knows finitely many data types, of which the texts differ, and names no others, then
    -- as many steps as there are data types, and one more, are enough for resolveBuiltInDataType to
    -- return. Its result is the first built-in data type above the given one; it reports a cycle only
    -- where a data type above leads back to itself, it reports that nothing was found only at a data
    -- type without a super type, and it fails with the server's error only where the browse did.
    pub resolve_built_in_data_type-Explains :
        (v : V)
        → get a.text known ≡ some v
        → (r : Exit (ResolveError Cause) ℕ) × (resolve_built_in_data_type numbers browse a
              (suc (length known))
            ≡ some r)
          × Explains a r
    unfolding resolve_built_in_data_type has
    resolve_built_in_data_type-Explains v there =
        Explained-resolve_loop (suc (length known)) a [] v there
          (omega (arith, unseen-le-length [] known)) stay (λ key h. absurd (ground arith))

-- ===== src/Codegen/Discover/Invariant.antt =====
-- `discover` of packages/codegen/src/discover.ts from the roots on: every state of the walk is sound, and
-- its result is such a state.
use effect_opcua.Prelude.{
  ℕ, zero, suc, String, Option, none, some, List, [], ◌∷◌, map, ◌≡◌, refl, sym, ap, subst, ◌∙◌,
}
use effect_opcua.Client.Effect.{Exit, succeeded, failed}
use effect_opcua.Codegen.Discover.Walk.{
  DiscoverError, Session, Config, TraversalItem, Walk, RootNode, start_walk, visit_item, go_on,
  walk_round, walk_loop,
}
use effect_opcua.Codegen.Discover.Excluded.{Steps, start, next}

abbrev pub root_paths : List RootNode → List (List String)
root_paths roots = map (λ (r : RootNode). r.path) roots

failed_is_no_result :
    {E A : Type 0} {e : E} {a : A} (o : Option (Exit E A))
    → o ≡ some (failed e)
    → ¬ (o ≡ some (succeeded a))
failed_is_no_result o f h = cc

nothing_is_no_result :
    {E A : Type 0} {a : A} (o : Option (Exit E A)) → o ≡ none → ¬ (o ≡ some (succeeded a))
nothing_is_no_result o f h = cc

same_result :
    {E A : Type 0} {a b : A} (o : Option (Exit E A))
    → o ≡ some (succeeded a)
    → o ≡ some (succeeded b)
    → a ≡ b
same_result o f h = cc

module _ {Cause : Type 0} (session : Session Cause) (config : Config) where
  -- What the loop does from a state on.
  abbrev Ends : Walk → Walk → Type 0
  Ends w v = Steps session config w v × (v.queue ≡ [])

  -- A round from `u`, where the rest of the loop ends.
  Ends-go_on :
      (rest : Walk → Option (Exit (DiscoverError Cause) Walk)) (w v : Walk)
      (result : Exit (DiscoverError Cause) Walk)
      → ((u : Walk) → result ≡ succeeded u → rest u ≡ some (succeeded v) → Ends w v)
      → go_on session config rest result ≡ some (succeeded v)
      → Ends w v
  Ends-go_on rest w v (failed e) ends h = absurd (failed_is_no_result _ refl h)
  Ends-go_on rest w v (succeeded u) ends h = ends u refl h

  Ends-walk_round :
      (rest : Walk → Option (Exit (DiscoverError Cause) Walk)) (w u v : Walk)
      (queue : List TraversalItem)
      → ((t : Walk) → Steps session config w t → rest t ≡ some (succeeded v) → Ends w v)
      → Steps session config w u
      → u.queue ≡ queue
      → walk_round session config rest queue u ≡ some (succeeded v)
      → Ends w v
  unfolding walk_round
  Ends-walk_round rest w u v [] ends steps taken h =
      let same : u ≡ v = same_result _ refl h in
      (subst (Steps session config w) same steps, ap (λ (t : Walk). t.queue) (sym same) ∙ taken)
  Ends-walk_round rest w u v (current ∷ queue) ends steps taken h =
      Ends-go_on rest w v (visit_item session config current (record u { queue = queue }))
        (λ t visited. ends t (next current queue steps taken visited)) h

  Ends-walk_loop :
      (fuel : ℕ) (w u v : Walk)
      → Steps session config w u
      → walk_loop session config fuel u ≡ some (succeeded v)
      → Ends w v
  unfolding walk_loop
  Ends-walk_loop zero w u v steps h = absurd (nothing_is_no_result _ refl h)
  Ends-walk_loop (suc fuel) w u v steps h =
      Ends-walk_round (walk_loop session config fuel) w u v u.queue (λ t. Ends-walk_loop fuel w t v)
        steps refl h

  -- A result of the walk is a state that it reaches, with an empty queue.
  walk_loop-Ends :
      (roots : List RootNode) (fuel : ℕ) (v : Walk)
      → walk_loop session config fuel (start_walk config roots) ≡ some (succeeded v)
      → Ends (start_walk config roots) v
  walk_loop-Ends roots fuel v =
      Ends-walk_loop fuel (start_walk config roots) (start_walk config roots) v start

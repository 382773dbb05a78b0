-- ===== src/Codegen/TypeGraph/Work.antt =====
-- The worklist ends: an id adds its dependencies to the queue once, when it is seen first.
use effect_opcua.Prelude.{
  ℕ, zero, suc, ◌+◌, ◌≤◌, String, ◌≡◌, refl, ap, ◌∙◌, subst, false, Option, none, some, List, [],
  ◌∷◌, inl, inr, arith, eq_iff, length, length-append, List-cases, Bool-cases, if◌then◌else◌,
}
use effect_opcua.Prelude.Sets.{has, add, has-add}
use effect_opcua.Prelude.Maps.{Map, get}
use effect_opcua.Codegen.Issues.{Severity}
use effect_opcua.Codegen.Types.{
  DefinitionResult, success, missing, unsupported, failure, SurfaceNode,
}
use effect_opcua.Codegen.TypeGraph.{
  Walk, done, out_of_fuel, dependencies, visit, round, walk, width, total_width, roots, start,
  reachable_definitions,
}

-- The ids that results not yet seen may still add.
pub unseen_width : List String → Map DefinitionResult → ℕ
unseen_width seen [] = 0
unseen_width seen ((id, r) ∷ results) =
    (if has id seen then 0 else width r) + unseen_width seen results

abbrev width_of : Option DefinitionResult → ℕ
width_of none = 0
width_of (some r) = width r

unseen_width-nil : (results : Map DefinitionResult) → unseen_width [] results ≡ total_width results
unfolding unseen_width total_width has
unseen_width-nil [] = refl
unseen_width-nil ((id, r) ∷ results) = ap (λ n. width r + n) (unseen_width-nil results)

unseen_width_mono :
    (k : String) (seen : List String) (results : Map DefinitionResult)
    → unseen_width (add k seen) results ≤ unseen_width seen results
unfolding unseen_width
unseen_width_mono k seen [] = omega arith
unseen_width_mono k seen ((id, r) ∷ results) =
    ground (arith, unseen_width_mono k seen results, has-add k id seen)

-- Seeing an id takes its width away.
unseen_width-add :
    (k : String) (seen : List String) (results : Map DefinitionResult)
    → has k seen ≡ false
    → unseen_width (add k seen) results + width_of (get k results) ≤ unseen_width seen results
unfolding unseen_width get
unseen_width-add k seen [] h = omega arith
unseen_width-add k seen ((id, r) ∷ results) h = ground (
  arith,
  unseen_width-add k seen results h,
  unseen_width_mono k seen results,
  has-add k id seen,
  eq_iff id k,
  eq_iff k id,
)

module _ (severity : Severity) (results : Map DefinitionResult) where
  pub work : Walk → ℕ
  work w = length w.queue + unseen_width w.seen results

  work-visit :
      (id : String) (o : Option DefinitionResult) (w : Walk)
      → work (visit severity id o w) ≡ work w + width_of o
  unfolding work visit
  work-visit id none w = omega arith
  work-visit id (some (missing reason)) w = omega arith
  work-visit id (some (unsupported reason)) w = omega arith
  work-visit id (some (failure reason)) w = omega arith
  work-visit id (some (success d)) w = omega (arith, length-append w.queue (dependencies d))

  work-round :
      (id : String) (rest : List String) (w : Walk)
      → work (round severity results id rest w) ≤ length rest + unseen_width w.seen results
  unfolding round work
  work-round id rest w = elim (Bool-cases (has id w.seen)) [
    | inl old ↦ rw old (omega arith)
    | inr new ↦ rw new (
        omega (
          arith,
          work-visit id (get id results) (record w { queue = rest; seen = add id w.seen }),
          unseen_width-add id w.seen results new,
        ))
  ]

  walk_empty : (fuel : ℕ) (w : Walk) → w.queue ≡ [] → walk severity results fuel w ≡ done w
  unfolding walk
  walk_empty zero w e = ground arith
  walk_empty (suc fuel) w e = ground arith

  walk_next :
      (fuel : ℕ) (w : Walk) (id : String) (rest : List String)
      → w.queue ≡ id ∷ rest
      → walk severity results (suc fuel) w
        ≡ walk severity results fuel (round severity results id rest w)
  unfolding walk round
  walk_next fuel w id rest e = rw (e, walk)

  walk_stuck :
      (w : Walk) (id : String) (rest : List String)
      → w.queue ≡ id ∷ rest
      → walk severity results zero w ≡ out_of_fuel
  unfolding walk
  walk_stuck w id rest e = ground arith

  -- With fuel for the work that is left, the loop ends.
  pub walk_ends :
      (fuel : ℕ) (w : Walk) → work w ≤ fuel → (t : Walk) × (walk severity results fuel w ≡ done t)
  unfolding work
  walk_ends zero w h = elim (List-cases w.queue) [
    | inl e ↦ (w, walk_empty zero w e)
    | inr (id, rest, e) ↦ absurd (omega (arith, ap length e))
  ]
  walk_ends (suc fuel) w h = elim (List-cases w.queue) [
    | inl e ↦ (w, walk_empty (suc fuel) w e)
    | inr (id, rest, e) ↦
        let (t, ends) =
          walk_ends fuel (round severity results id rest w)
            (omega (arith, work-round id rest w, ap length e)) in
        (t, walk_next fuel w id rest e ∙ ends)
  ]

  -- An invariant that a round keeps holds at the end, where the queue is empty.
  pub walk_rule {ℓ} :
      (P : Walk → Type ℓ)
      → ((w : Walk) (id : String) (rest : List String)
          → w.queue ≡ id ∷ rest
          → P w
          → P (round severity results id rest w))
      → (fuel : ℕ) (w t : Walk) → P w
      → walk severity results fuel w ≡ done t
      → P t × (t.queue ≡ [])
  walk_rule P keep zero w t p h = elim (List-cases w.queue) [
    | inl e ↦ let same : w ≡ t = cc (walk_empty zero w e) in (subst P same p, cc)
    | inr (id, rest, e) ↦ cc (walk_stuck w id rest e)
  ]
  walk_rule P keep (suc fuel) w t p h = elim (List-cases w.queue) [
    | inl e ↦ let same : w ≡ t = cc (walk_empty (suc fuel) w e) in (subst P same p, cc)
    | inr (id, rest, e) ↦
        walk_rule P keep fuel (round severity results id rest w) t (keep w id rest e p)
          (cc (walk_next fuel w id rest e))
  ]

-- The loop ends within the fuel that it is given.
pub reachable_definitions_ends :
    (severity : Severity) (variables : List SurfaceNode) (results : Map DefinitionResult)
    → (t : Walk) × (reachable_definitions severity variables results ≡ done t)
unfolding reachable_definitions work
reachable_definitions_ends severity variables results =
    walk_ends severity results (length (roots variables) + total_width results)
      (start (roots variables)) (omega (arith, unseen_width-nil results))

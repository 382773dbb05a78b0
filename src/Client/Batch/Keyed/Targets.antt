-- ===== src/Client/Batch/Keyed/Targets.antt =====
-- validateUniqueTargets accepts exactly the entries whose targets are different.
use mathlib.Core.List.{Nodup, Nodup-cons, Nodup-nil}
use mathlib.Core.List.Memᴰ
use mathlib.Core.Logic.{∥∥₁_elim}
use mathlib.Core.HLevel.{⊥_prop}
use effect_opcua.Prelude.{
  String, Option, none, some, List, [], ◌∷◌, map, ◌==◌, eq_iff, ◌≡◌, refl, sym, ap, ◌↔◌, inl, inr,
  Bool-cases, arith, Memᴰ, mem-nil, ⊎_elim, All,
}
use effect_opcua.Prelude.Maps.{Map, get, set, get-set}
use effect_opcua.Client.Effect.Keeping.{Keeps}
use effect_opcua.Client.Effect.{Effect, Exit, succeeded, failed}
use effect_opcua.Client.Batch.Keyed.{
  KeyedEntry, ConfigurationError, check_target, check_targets, validate_unique_targets,
}

abbrev IsFree : Map String → String → Type 0
IsFree seen t = get t seen ≡ none

-- A target is free after `t` was seen exactly if it was free and is not `t`.
IsFree-set :
    (seen : Map String) (t key u : String)
    → (IsFree (set t key seen) u → IsFree seen u × ¬ (u ≡ t))
      × (IsFree seen u → ¬ (u ≡ t) → IsFree (set t key seen) u)
IsFree-set seen t key u = elim (Bool-cases (t == u)) [
  | inl same ↦ (
    λ h. absurd (ground (arith, get-set t u key seen)),
    λ h other. absurd (other (sym ((eq_iff t u).0 same))),
  )
  | inr differ ↦ (
    λ h. (ground (arith, get-set t u key seen), λ e. absurd (ground (arith, eq_iff t u, sym e))),
    λ h other. ground (arith, get-set t u key seen),
  )
]

All-set :
    (seen : Map String) (t key : String) (us : List String)
    → (All (IsFree (set t key seen)) us → All (IsFree seen) us × ¬ Memᴰ t us)
      × (All (IsFree seen) us → ¬ Memᴰ t us → All (IsFree (set t key seen)) us)
All-set seen t key [] = (λ h. (tt, λ m. mem-nil m), λ h n. tt)
All-set seen t key (u ∷ us) =
    let (back, forth) = IsFree-set seen t key u in
    let (later, all) = All-set seen t key us in
    (
      λ (h, hs).
          let (free, other) = back h in
          let (rest, absent) = later hs in
          ((free, rest), λ m. ⊎_elim (λ e. other (sym e)) absent (Memᴰ.cases_cons m)),
      λ (h, hs) absent.
          (forth h (λ e. absent (Memᴰ.head (sym e))), all hs (λ m. absent (Memᴰ.tail m))),
    )

All-IsFree : (us : List String) → All (IsFree []) us
unfolding get
All-IsFree [] = tt
All-IsFree (u ∷ us) = (refl, All-IsFree us)

not_accepted : {E : Type 0} {e : E} (r : Exit E Unit) → r ≡ failed e → ¬ (r ≡ succeeded tt)
not_accepted r f h = cc

some≢none : {A : Type 0} {a : A} → ¬ (some a ≡ none)
some≢none h = cc

module _ {World E Normalized : Type 0} (configuration_error : ConfigurationError → E)
    (operation : String) (target : KeyedEntry Normalized → String) (w : World) where
  abbrev Accepts : Map String → List (KeyedEntry Normalized) → Type 0
  Accepts seen entries =
      check_targets configuration_error operation target seen entries w ≡ (succeeded tt, w)

  check_target-Accepts :
      (entry : KeyedEntry Normalized) (seen_by : Option String) (rest : Effect World E Unit)
      → (check_target configuration_error operation target entry seen_by rest w ≡ (succeeded tt, w))
        ↔ ((seen_by ≡ none) × (rest w ≡ (succeeded tt, w)))
  unfolding check_target
  check_target-Accepts entry none rest = (λ h. (refl, h), λ (_, h). h)
  check_target-Accepts entry (some key) rest =
      (λ h. absurd (not_accepted _ refl (ap (λ r. r.0) h)), λ (e, _). absurd (some≢none e))

  check_targets-Accepts :
      (seen : Map String) (entries : List (KeyedEntry Normalized))
      → Accepts seen entries ↔ (Nodup (map target entries) × All (IsFree seen) (map target entries))
  unfolding check_targets check_target
  check_targets-Accepts seen [] = (λ h. (Nodup-nil, tt), λ h. refl)
  check_targets-Accepts seen (entry ∷ entries) =
      let t = target entry in
      let rest =
        check_targets configuration_error operation target (set t entry.key seen) entries in
      let (first, back) = check_target-Accepts entry (get t seen) rest in
      let (later, later_back) = check_targets-Accepts (set t entry.key seen) entries in
      let (free, free_back) = All-set seen t entry.key (map target entries) in
      (
        λ h.
            let (new, accepted) = first h in
            let (distinct, all) = later accepted in
            let (unseen, absent) = free all in
            (Nodup-cons.1 (λ m. ∥∥₁_elim m ⊥_prop absent, distinct), (new, unseen)),
        λ (h, (new, unseen)).
            let (absent, distinct) = Nodup-cons.0 h in
            back (new, later_back (distinct, free_back unseen (λ m. absent ∣ m ∣₁))),
      )

  -- The entries are accepted, in an unchanged world, exactly if no two of them have one target.
  pub validate_unique_targets_iff :
      (entries : List (KeyedEntry Normalized))
      → (validate_unique_targets configuration_error operation target entries w ≡ (succeeded tt, w))
        ↔ Nodup (map target entries)
  unfolding validate_unique_targets get
  validate_unique_targets_iff entries =
      let (first, back) = check_targets-Accepts [] entries in
      (λ h. (first h).0, λ h. back (h, All-IsFree (map target entries)))

module _ {World E Normalized : Type 0} (I : World → Type 0)
    (configuration_error : ConfigurationError → E) (operation : String)
    (target : KeyedEntry Normalized → String) where
  Keeps-check_targets :
      (seen : Map String) (entries : List (KeyedEntry Normalized))
      → Keeps I (check_targets configuration_error operation target seen entries)
  unfolding check_targets
  Keeps-check_targets seen [] w i = i
  Keeps-check_targets seen (entry ∷ entries) w i =
      Keeps-check_target entry (get (target entry) seen)
        (check_targets configuration_error operation target (set (target entry) entry.key seen)
          entries)
        (Keeps-check_targets (set (target entry) entry.key seen) entries) w i
    where
      Keeps-check_target :
          (entry : KeyedEntry Normalized) (o : Option String) (rest : Effect World E Unit)
          → Keeps I rest
          → Keeps I (check_target configuration_error operation target entry o rest)
      Keeps-check_target entry none rest keeps = keeps
      Keeps-check_target entry (some duplicate) rest keeps = λ w i. i

  pub Keeps-validate_unique_targets :
      (entries : List (KeyedEntry Normalized))
      → Keeps I (validate_unique_targets configuration_error operation target entries)
  unfolding validate_unique_targets
  Keeps-validate_unique_targets entries = Keeps-check_targets [] entries

-- ===== src/Codegen/Naming/Distinct.antt =====
-- Generated names are distinct: of several data types that generate one name, all are invalid.
use mathlib.Core.List.{foldl}
use mathlib.Core.List.Memᴰ
use mathlib.Core.Bool.{false≢true}
use effect_opcua.Prelude.{
  ◌<◌, ◌≢◌, ap, String, Option, none, some, List, [], ◌∷◌, true, false, ◌≡◌, ◌==◌, refl, sym, ◌∙◌,
  subst, length, ltb, ◌⊎◌, inl, inr, ⊎_elim, Memᴰ, mem-cons_iff, mem-nil, length-two, arith, eq_iff,
  eq_refl, Bool-cases,
}
use effect_opcua.Prelude.Sets.{has, add, has-add}
use effect_opcua.Prelude.Maps.{Map, get, get-set, mem_of_get}
use effect_opcua.Prelude.Groups.{items, or_empty, push, items-push}
use effect_opcua.Codegen.Types.{DataTypeDefinition}
use effect_opcua.Codegen.Names.{sanitize_pascal}
use effect_opcua.Codegen.Naming.{
  Kind, Naming, Definitions, raw_name, name_as, name_raw, name_definition, add_all, reject_group,
  unnamed, name_definitions, reject_groups, naming,
}

pub mem-items-push :
    (k j : String) (v : String) (m : Map (List String)) {id : String}
    → Memᴰ id (items j m)
    → Memᴰ id (items j (push k v m))
mem-items-push k j v m h = rw (items-push k j v m) (elim (Bool-cases (k == j)) [
  | inl same ↦ rw same (Memᴰ.append_left (v ∷ []) h)
  | inr other ↦ rw other h
])

pub mem-items-push_self : (k v : String) (m : Map (List String)) → Memᴰ v (items k (push k v m))
mem-items-push_self k v m =
    rw (items-push k k v m, eq_refl) (Memᴰ.append_right (items k m) (Memᴰ.head refl))

pub has-add_all :
    (ids invalid : List String) (j : String)
    → has j invalid ≡ true ⊎ Memᴰ j ids
    → has j (add_all ids invalid) ≡ true
has-add_all [] invalid j h = ⊎_elim (λ old. old) (λ m. absurd (mem-nil m)) h
has-add_all (id ∷ ids) invalid j h =
    has-add_all ids (add id invalid) j
      (ground (arith, has-add id j invalid, mem-cons_iff j id ids, eq_iff id j))

module _ (kind : Kind) where
  -- Every id stands in the group of its name.
  IsGrouped : Naming → Type 0
  IsGrouped n = (id name : String) → get id n.names ≡ some name → Memᴰ id (items name n.groups)

  name_as-IsGrouped :
      (id : String) (o : Option String) (n : Naming) → IsGrouped n → IsGrouped (name_as kind id o n)
  unfolding IsGrouped name_as
  name_as-IsGrouped id none n h = h
  name_as-IsGrouped id (some name) n h = λ j other e. elim (Bool-cases (id == j)) [
    | inl same ↦
        let key : id ≡ j = (eq_iff id j).0 same in
        let value : name ≡ other = ground (arith, get-set id j name n.names) in
        subst (λ x. Memᴰ x (items other (push name id n.groups))) key
          (subst (λ x. Memᴰ id (items x (push name id n.groups))) value
            (mem-items-push_self name id n.groups))
    | inr differ ↦
        mem-items-push name other id n.groups
          (h j other (ground (arith, get-set id j name n.names)))
  ]

  name_raw-IsGrouped :
      (id : String) (o : Option String) (n : Naming)
      → IsGrouped n
      → IsGrouped (name_raw kind id o n)
  unfolding name_raw
  name_raw-IsGrouped id none n h = h
  name_raw-IsGrouped id (some raw) n h = name_as-IsGrouped id (sanitize_pascal raw) n h

  -- A round keeps the members of every group.
  mem-items-name_raw :
      (id : String) (o : Option String) (n : Naming) (j : String) {x : String}
      → Memᴰ x (items j n.groups)
      → Memᴰ x (items j (name_raw kind id o n).groups)
  unfolding name_raw name_as
  mem-items-name_raw id none n j h = h
  mem-items-name_raw id (some raw) n j {x = x} h = as_sanitized (sanitize_pascal raw)
    where
      as_sanitized : (o : Option String) → Memᴰ x (items j (name_as kind id o n).groups)
      as_sanitized none = h
      as_sanitized (some name) = mem-items-push name j id n.groups h

  foldl-IsGrouped :
      (defs : Definitions) (n : Naming)
      → IsGrouped n
      → IsGrouped (foldl (name_definition kind) n defs)
  unfolding name_definition
  foldl-IsGrouped [] n h = h
  foldl-IsGrouped ((id, d) ∷ defs) n h =
      foldl-IsGrouped defs (name_raw kind id (raw_name kind d) n)
        (name_raw-IsGrouped id (raw_name kind d) n h)

  mem-items-foldl :
      (defs : Definitions) (n : Naming) (j : String) {x : String}
      → Memᴰ x (items j n.groups)
      → Memᴰ x (items j (foldl (name_definition kind) n defs).groups)
  unfolding name_definition
  mem-items-foldl [] n j h = h
  mem-items-foldl ((id, d) ∷ defs) n j h =
      mem-items-foldl defs (name_raw kind id (raw_name kind d) n) j
        (mem-items-name_raw id (raw_name kind d) n j h)

  has-reject_group :
      (n : Naming) (name : String) (ids : List String) (x : String)
      → has x n.invalid ≡ true ⊎ (1 < length ids) × Memᴰ x ids
      → has x (reject_group kind n (name, ids)).invalid ≡ true
  unfolding reject_group
  has-reject_group n name ids x h = elim (Bool-cases (ltb 1 (length ids))) [
    | inl many ↦ rw many (has-add_all ids n.invalid x (⊎_elim inl (λ new. inr new.1) h))
    | inr one ↦ rw one (⊎_elim (λ old. old) (λ new. absurd (ground arith)) h)
  ]

  has-foldl_old :
      (groups : Map (List String)) (n : Naming) (x : String)
      → has x n.invalid ≡ true
      → has x (foldl (reject_group kind) n groups).invalid ≡ true
  has-foldl_old [] n x h = h
  has-foldl_old ((j, js) ∷ groups) n x h =
      has-foldl_old groups (reject_group kind n (j, js)) x (has-reject_group n j js x (inl h))

  has-foldl_new :
      (groups : Map (List String)) (n : Naming) (x name : String) (ids : List String)
      → Memᴰ (name, ids) groups
      → 1 < length ids
      → Memᴰ x ids
      → has x (foldl (reject_group kind) n groups).invalid ≡ true
  has-foldl_new [] n x name ids m many h = absurd (mem-nil m)
  has-foldl_new ((j, js) ∷ groups) n x name ids m many h =
      let n' = reject_group kind n (j, js) in
      ⊎_elim
        (λ (e : (name, ids) ≡ (j, js)).
          let same : ids ≡ js = ap (λ (p : String × List String). p.1) e in
          has-foldl_old groups n' x (
            has-reject_group n j js x
              (inr (subst (λ l. (1 < length l) × Memᴰ x l) same (many, h)))))
        (λ later. has-foldl_new groups n' x name ids later many h)
        ((mem-cons_iff (name, ids) (j, js) groups).0 m)

  names-foldl :
      (groups : Map (List String)) (n : Naming)
      → (foldl (reject_group kind) n groups).names ≡ n.names
  unfolding reject_group
  names-foldl [] n = refl
  names-foldl ((j, js) ∷ groups) n = names-foldl groups (reject_group kind n (j, js)) ∙ ground arith

  pub names-reject_groups : (n : Naming) → (reject_groups kind n).names ≡ n.names
  unfolding reject_groups
  names-reject_groups n = names-foldl n.groups n

  -- Two ids in the group of one name are both invalid.
  pub shared_group :
      (n : Naming) (name a b : String)
      → Memᴰ a (items name n.groups)
      → Memᴰ b (items name n.groups)
      → a ≢ b
      → has a (reject_groups kind n).invalid ≡ true
  unfolding reject_groups
  shared_group n name a b ma mb differ = in_group (get name n.groups) refl ma mb
    where
      in_group :
          (o : Option (List String))
          → get name n.groups ≡ o
          → Memᴰ a (or_empty o)
          → Memᴰ b (or_empty o)
          → has a (foldl (reject_group kind) n n.groups).invalid ≡ true
      in_group none e ma mb = absurd (mem-nil ma)
      in_group (some ids) e ma mb =
          has-foldl_new n.groups n a name ids (mem_of_get name ids n.groups e)
            (length-two ids ma mb differ) ma

  -- A named definition stands in the group of its name.
  pub mem_group :
      (defs : Definitions) (n : Naming) (id raw name : String) (d : DataTypeDefinition)
      → Memᴰ (id, d) defs
      → raw_name kind d ≡ some raw
      → sanitize_pascal raw ≡ some name
      → Memᴰ id (items name (foldl (name_definition kind) n defs).groups)
  unfolding name_definition
  mem_group [] n id raw name d m e f = absurd (mem-nil m)
  mem_group ((j, c) ∷ defs) n id raw name d m e f =
      ⊎_elim
        (λ (same : (id, d) ≡ (j, c)).
          mem-items-foldl defs (name_raw kind j (raw_name kind c) n) name (
            subst
              (λ (p : String × DataTypeDefinition).
                Memᴰ id (items name (name_raw kind p.0 (raw_name kind p.1) n).groups))
              same (pushed n id raw name d e f)))
        (λ later. mem_group defs (name_raw kind j (raw_name kind c) n) id raw name d later e f)
        ((mem-cons_iff (id, d) (j, c) defs).0 m)
    where
      pushed :
          (n : Naming) (id raw name : String) (d : DataTypeDefinition)
          → raw_name kind d ≡ some raw
          → sanitize_pascal raw ≡ some name
          → Memᴰ id (items name (name_raw kind id (raw_name kind d) n).groups)
      pushed n id raw name d e f =
          let there = mem-items-push_self name id n.groups in
          rw (e, name_raw) (rw (f, name_as) there)

  -- Of the data types in the group of one name only one can stay valid.
  pub group_distinct :
      (defs : Definitions) (a b name : String)
      → Memᴰ a (items name (name_definitions kind defs).groups)
      → Memᴰ b (items name (name_definitions kind defs).groups)
      → has a (naming kind defs).invalid ≡ false
      → a ≡ b
  unfolding naming
  group_distinct defs a b name ma mb valid = elim (Bool-cases (a == b)) [
    | inl same ↦ (eq_iff a b).0 same
    | inr other ↦
        let invalid =
          shared_group (name_definitions kind defs) name a b ma mb (λ e. cc ((eq_iff a b).1 e)) in
        absurd (false≢true (sym valid ∙ invalid))
  ]

  -- Two data types with one name, of which one stays valid, are the same.
  pub naming_distinct :
      (defs : Definitions) (a b name : String)
      → get a (naming kind defs).names ≡ some name
      → get b (naming kind defs).names ≡ some name
      → has a (naming kind defs).invalid ≡ false
      → a ≡ b
  unfolding naming name_definitions get IsGrouped
  naming_distinct defs a b name ea eb valid =
      let n = name_definitions kind defs in
      let grouped = foldl-IsGrouped defs unnamed (λ id j e. cc) in
      let same = names-reject_groups n in
      group_distinct defs a b name (grouped a name (rw (← same) ea))
        (grouped b name (rw (← same) eb)) valid

  -- Of two different data types that generate one name, neither stays valid.
  pub naming_collision :
      (defs : Definitions) (a b name : String)
      → get a (naming kind defs).names ≡ some name
      → get b (naming kind defs).names ≡ some name
      → ¬ (a ≡ b)
      → has a (naming kind defs).invalid ≡ true
  naming_collision defs a b name ea eb other =
      elim (Bool-cases (has a (naming kind defs).invalid)) [
        | inl invalid ↦ invalid
        | inr valid ↦ absurd (other (naming_distinct defs a b name ea eb valid))
      ]

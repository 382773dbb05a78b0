-- ===== src/Client/Monitor/Compatible.antt =====
-- packages/client/src/internal/monitoring/runtime.ts: a request for monitored items takes its options
-- from its first item, so its items must agree on them.
use effect_opcua.Prelude.{
  ℕ, String, List, [], ◌∷◌, ◌++◌, map, flat_map, Bool-cases, ◌≡◌, refl, sym, subst, ◌<◌, inl, inr,
  All, All-append, ◌==◌, eq_iff,
}
use effect_opcua.Prelude.Maps.{Map, get, set}
use effect_opcua.Prelude.Groups.{group_from, push, items}
use effect_opcua.Client.Batch.{chunks_of, chunks_or_nil, concat}
use effect_opcua.Client.Batch.Chunks.{Fits, chunks_of-concat}
use effect_opcua.Client.Monitor.{Item, CreateOptions, Server}
use effect_opcua.Client.Monitor.Create.{pair_key, group_compatible_items, chunks_to_create}

module _ {Info : Type 0} where
  -- All items have the compatibility key.
  abbrev pub HasKey : String → List (Item Info) → Type 0
  HasKey k = All (λ (item : Item Info). item.compatibility_key ≡ k)

  abbrev HasKeys : Map (List (Item Info)) → Type 0
  HasKeys = All (λ (g : String × List (Item Info)). HasKey g.0 g.1)

  HasKey-items : (k : String) (m : Map (List (Item Info))) → HasKeys m → HasKey k (items k m)
  unfolding get
  HasKey-items k [] h = tt
  HasKey-items k ((j, xs) ∷ m) (first, rest) = elim (Bool-cases (j == k)) [
    | inl same ↦ rw same (subst (λ l. HasKey l xs) ((eq_iff j k).0 same) first)
    | inr other ↦ rw other (HasKey-items k m rest)
  ]

  HasKeys-set :
      (k : String) (xs : List (Item Info)) (m : Map (List (Item Info)))
      → HasKey k xs
      → HasKeys m
      → HasKeys (set k xs m)
  unfolding set
  HasKeys-set k xs [] h hs = (h, tt)
  HasKeys-set k xs ((j, ys) ∷ m) h (first, rest) = elim (Bool-cases (j == k)) [
    | inl same ↦ rw same (subst (λ l. HasKey l xs) (sym ((eq_iff j k).0 same)) h, rest)
    | inr other ↦ rw other (first, HasKeys-set k xs m h rest)
  ]

  HasKeys-group_from :
      (m : Map (List (Item Info))) (new : List (Item Info))
      → HasKeys m
      → HasKeys (group_from m (map pair_key new))
  unfolding group_from push
  HasKeys-group_from m [] h = h
  HasKeys-group_from m (item ∷ new) h =
      let k = item.compatibility_key in
      HasKeys-group_from (push k item m) new (
        HasKeys-set k (items k m ++ item ∷ []) m
          (All-append (λ (i : Item Info). i.compatibility_key ≡ k) (items k m) (item ∷ [])
            (HasKey-items k m h) (refl, tt))
          h)

  All-left :
      (k : String) (xs ys : List (Item Info)) → HasKey k (xs ++ ys) → HasKey k xs × HasKey k ys
  All-left k [] ys h = (tt, h)
  All-left k (x ∷ xs) ys (e, h) = let (left, right) = All-left k xs ys h in ((e, left), right)

  -- A request: not empty, within the limit, and of one compatibility key.
  abbrev pub IsUniform : ℕ → List (Item Info) → Type 0
  IsUniform size chunk = Fits size chunk × (k : String) × HasKey k chunk

  IsUniform-chunks :
      (size : ℕ) (k : String) (cs : List (List (Item Info)))
      → All (Fits size) cs
      → HasKey k (concat cs)
      → All (IsUniform size) cs
  IsUniform-chunks size k [] fit h = tt
  IsUniform-chunks size k (c ∷ cs) (f, fit) h =
      let (here, rest) = All-left k c (concat cs) h in
      ((f, k, here), IsUniform-chunks size k cs fit rest)

  IsUniform-groups :
      (size : ℕ) (groups : Map (List (Item Info)))
      → 0 < size
      → HasKeys groups
      → All
          (IsUniform size)
          (flat_map (λ (g : String × List (Item Info)). chunks_or_nil (chunks_of g.1 size)) groups)
  IsUniform-groups size [] pos h = tt
  IsUniform-groups size ((k, xs) ∷ groups) pos (first, rest) =
      let (cs, e, joined, fit) = chunks_of-concat xs size pos in
      All-append (IsUniform size) (chunks_or_nil (chunks_of xs size))
        (flat_map (λ (g : String × List (Item Info)). chunks_or_nil (chunks_of g.1 size)) groups)
        (rw e (IsUniform-chunks size k cs fit (subst (HasKey k) (sym joined) first)))
        (IsUniform-groups size groups pos rest)

module _ {Info Cause : Type 0} (server : Server Info Cause) where
  -- When a request may hold at least one item: every request for monitored items has at least one item
  -- and at most as many as allowed, and all its items have the same compatibility key.
  pub chunks_to_create-IsUniform :
      (create : CreateOptions) (new : List (Item Info))
      → 0 < create.max_items_per_request
      → All (IsUniform create.max_items_per_request) (chunks_to_create server create new)
  unfolding chunks_to_create group_compatible_items
  chunks_to_create-IsUniform create new pos =
      IsUniform-groups create.max_items_per_request (group_compatible_items new) pos
        (HasKeys-group_from [] new tt)

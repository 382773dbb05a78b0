-- ===== src/Client/Monitor/Balanced/Creation.antt =====
-- createMonitorChunks of packages/client/src/internal/monitoring/runtime.ts neither loses nor doubles an
-- item.
use mathlib.Core.List.{append_assoc}
use effect_opcua.Prelude.{
  ℕ, suc, ◌+◌, ◌<◌, String, List, [], ◌∷◌, ◌++◌, get_elem?, map, flat_map, Bool-cases, ◌≡◌, refl,
  sym, ap, ◌∙◌, inl, inr, arith,
}
use effect_opcua.Prelude.Maps.{Map}
use effect_opcua.Client.Monitor.Weights.{
  weigh_keys, weigh-append, weigh-map, weigh-group_from, weigh_groups, weigh_keys-append,
}
use effect_opcua.Client.Effect.{Exit, succeeded, failed}
use effect_opcua.Client.Batch.{chunks_of, chunks_or_nil, concat}
use effect_opcua.Client.Monitor.{
  Item, CreateOptions, Server, Runtime, MonitoredItem, Group, ask, created,
}
use effect_opcua.Client.Monitor.Create.{
  monitored_item_status_code, is_empty, CreatedChunk, Sorted, pair_key, group_compatible_items,
  sort_item, sort_items, fail_created, settle_group, settle_created, create_monitor_chunk,
  create_chunks, chunks_to_create, create_monitor_chunks,
}
use effect_opcua.Client.Monitor.Start.{active_of, failed_of}
use effect_opcua.Client.Monitor.Balanced.{weigh_items, weigh-chunks_or_nil}

concat-append : {A : Type 0} (xs ys : List (List A)) → concat (xs ++ ys) ≡ concat xs ++ concat ys
concat-append [] ys = refl
concat-append (x ∷ xs) ys =
    ap (λ zs. x ++ zs) (concat-append xs ys) ∙ sym (append_assoc x (concat xs) (concat ys))

module _ {Info Cause : Type 0} (server : Server Info Cause) (f : String → ℕ) where
  unfoldable weigh_sorted : Sorted Info Cause → ℕ
  weigh_sorted sorted = weigh_keys f sorted.active + weigh_keys f sorted.failed

  weigh-sort_items :
      (ms : List MonitoredItem) (index : ℕ) (items : List (Item Info))
      → weigh_sorted (sort_items server ms index items) ≡ weigh_items f items
  unfolding sort_items sort_item weigh_sorted
  weigh-sort_items ms index [] = omega arith
  weigh-sort_items ms index (item ∷ items) =
      elim (Bool-cases (server.is_good (monitored_item_status_code server (get_elem? ms index)))) [
        | inl e ↦ rw e (omega (arith, weigh-sort_items ms (suc index) items))
        | inr e ↦ rw e (omega (arith, weigh-sort_items ms (suc index) items))
      ]

  unfoldable weigh_created : CreatedChunk Info Cause → ℕ
  weigh_created c = weigh_keys f c.active + weigh_keys f c.failed

  weigh-settle_group :
      (group : Group) (sorted : Sorted Info Cause) (s : Runtime Info Cause)
      → weigh_created (settle_group server group sorted s).0 ≡ weigh_sorted sorted
  unfolding settle_group weigh_created weigh_sorted
  weigh-settle_group group sorted s = elim (Bool-cases (is_empty server sorted.active)) [
    | inl e ↦ rw e refl
    | inr e ↦ rw e refl
  ]

  weigh-fail_created :
      (cause : Cause) (chunk : List (Item Info))
      → weigh_keys f (fail_created server cause chunk) ≡ weigh_items f chunk
  unfolding fail_created
  weigh-fail_created cause [] = refl
  weigh-fail_created cause (item ∷ chunk) =
      ap (λ n. f item.key + n) (weigh-fail_created cause chunk)

  weigh-settle_created :
      (chunk : List (Item Info)) (answer : Exit Cause Group) (s : Runtime Info Cause)
      → weigh_created (settle_created server chunk answer s).0 ≡ weigh_items f chunk
  unfolding settle_created weigh_created
  weigh-settle_created chunk (failed cause) s = omega (arith, weigh-fail_created cause chunk)
  weigh-settle_created chunk (succeeded group) s =
      weigh-settle_group group _ s ∙ weigh-sort_items group.monitored_items 0 chunk

  weigh-create_chunks :
      (chunks : List (List (Item Info))) (s : Runtime Info Cause)
      → (let cs = (create_chunks server chunks s).0 in
          weigh_keys f (active_of cs) + weigh_keys f (failed_of cs))
        ≡ weigh_items f (concat chunks)
  unfolding create_chunks create_monitor_chunk weigh_created
  weigh-create_chunks [] s = omega arith
  weigh-create_chunks (chunk ∷ chunks) s =
      let answer = server.create s.calls chunk in
      let first = create_monitor_chunk server chunk s in
      let rest = (create_chunks server chunks first.1).0 in
      omega (
        arith,
        weigh_keys-append f first.0.active (active_of rest),
        weigh_keys-append f first.0.failed (failed_of rest),
        weigh-settle_created chunk answer (ask (created chunk answer) s),
        weigh-create_chunks chunks first.1,
        weigh-append (λ (i : Item Info). f i.key) chunk (concat chunks),
      )

  weigh-chunks_of_groups :
      (size : ℕ) (groups : Map (List (Item Info)))
      → 0 < size
      → weigh_items f (
          concat (
            flat_map
              (λ (g : String × List (Item Info)). chunks_or_nil (chunks_of g.1 size))
              groups))
        ≡ weigh_groups (λ (i : Item Info). f i.key) groups
  weigh-chunks_of_groups size [] pos = refl
  weigh-chunks_of_groups size ((k, items) ∷ groups) pos =
      let first = chunks_or_nil (chunks_of items size) in
      let rest =
        flat_map (λ (g : String × List (Item Info)). chunks_or_nil (chunks_of g.1 size)) groups in
      rw (concat-append first rest) (
        omega (
          arith,
          weigh-append (λ (i : Item Info). f i.key) (concat first) (concat rest),
          weigh-chunks_or_nil f items size pos,
          weigh-chunks_of_groups size groups pos,
        ))

  -- The creation puts every item into `active` or `failed`.
  pub weigh-create_monitor_chunks :
      (create : CreateOptions) (items : List (Item Info)) (s : Runtime Info Cause)
      → 0 < create.max_items_per_request
      → (let cs = (create_monitor_chunks server create items s).0 in
          weigh_keys f (active_of cs) + weigh_keys f (failed_of cs))
        ≡ weigh_items f items
  unfolding create_monitor_chunks chunks_to_create group_compatible_items
  weigh-create_monitor_chunks create items s pos = omega (
    arith,
    weigh-create_chunks (chunks_to_create server create items) s,
    weigh-chunks_of_groups create.max_items_per_request (group_compatible_items items) pos,
    weigh-group_from (λ (i : Item Info). f i.key) [] (map pair_key items),
    weigh-map (λ (p : String × Item Info). f p.1.key) pair_key items,
  )

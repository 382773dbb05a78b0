-- ===== src/Client/Monitor/Create.antt =====
-- The creation of monitored items: createMonitorChunks and groupCompatibleItems of
-- packages/client/src/internal/monitoring/runtime.ts, monitoredItemStatusCode and
-- revisedMonitorItemOptions of monitoring/requests.ts. Requests are made one after the other, as with
-- the default of one concurrent request, and none is interrupted.
use effect_opcua.Prelude.{
  ℕ, suc, String, Option, none, some, List, [], ◌∷◌, ◌++◌, Bool, true, false, get_elem?, map,
  flat_map, if◌then◌else◌,
}
use effect_opcua.Prelude.Maps.{Map}
use effect_opcua.Prelude.Groups.{group_from}
use effect_opcua.Client.Effect.{Exit, succeeded, failed}
use effect_opcua.Client.Batch.{chunks_of, chunks_or_nil}
use effect_opcua.Client.Monitor.{
  Item, CreateOptions, thrown, item_result, StartupFailure, startup_failure, create_phase,
  ItemResult, Started, MonitoredItem, Group, created, Server, Runtime, ask, terminate_monitor_group,
  remove_first,
}

-- WireMonitorEntry, as far as the wiring reads it.
pub record Entry (Info : Type 0) : Type 0 where
  pub key : String
  pub node_id : String
  pub info : Info

pub record Retained (Info : Type 0) : Type 0 where
  pub handle : ℕ
  pub entries : List (Option (Entry Info))

-- CreatedChunk
pub record CreatedChunk (Info Cause : Type 0) : Type 0 where
  pub active : List (String × Started Info)
  pub failed : List (String × StartupFailure Info Cause)
  pub retained : Option (Retained Info)

-- What the loop over the items of a chunk fills.
pub record Sorted (Info Cause : Type 0) : Type 0 where
  pub active : List (String × Started Info)
  pub failed : List (String × StartupFailure Info Cause)
  pub entries : List (Option (Entry Info))

abbrev pub pair_key : {Info : Type 0} → Item Info → String × Item Info
pair_key item = (item.compatibility_key, item)

-- groupCompatibleItems
unfoldable pub group_compatible_items : {Info : Type 0} → List (Item Info) → Map (List (Item Info))
group_compatible_items items = group_from [] (map pair_key items)

-- undefined where neither of the two numbers was revised
revised_or_none : ItemResult → Option ItemResult
revised_or_none r = elim r.revised_sampling_interval [
  | some _ ↦ some r
  | none ↦ elim r.revised_queue_size [ none ↦ none | some _ ↦ some r ]
]

module _ {Info Cause : Type 0} (server : Server Info Cause) where
  unfoldable pub monitored_item_status_code : Option MonitoredItem → ℕ
  monitored_item_status_code none = server.bad
  monitored_item_status_code (some m) = elim m.status_code [
    | none ↦ server.bad
    | some status ↦ status
  ]

  abbrev result_of : Option MonitoredItem → Option ItemResult
  result_of none = none
  result_of (some m) = m.result

  revised_monitor_item_options : Option MonitoredItem → Option ItemResult
  unfolding revised_or_none
  revised_monitor_item_options m = elim (result_of m) [ none ↦ none | some r ↦ revised_or_none r ]

  unfoldable pub sort_item :
      Item Info → Option MonitoredItem → Sorted Info Cause → Sorted Info Cause
  unfolding monitored_item_status_code revised_monitor_item_options startup_failure
  sort_item item m rest =
      if server.is_good (monitored_item_status_code m)
      then record {
        active =
            (
              item.key,
              record {
                key = item.key;
                node_id = item.node_id;
                info = item.info;
                revised = revised_monitor_item_options m;
              },
            )
            ∷ rest.active;
        failed = rest.failed;
        entries =
            some (record { key = item.key; node_id = item.node_id; info = item.info })
            ∷ rest.entries;
      }
      else record {
        active = rest.active;
        failed =
            (
              item.key,
              startup_failure item create_phase (item_result (result_of m))
                  (some (monitored_item_status_code m)),
            )
            ∷ rest.failed;
        entries = none ∷ rest.entries;
      }

  -- The loop over the chunk from an index on.
  unfoldable pub sort_items : List MonitoredItem → ℕ → List (Item Info) → Sorted Info Cause
  unfolding sort_item
  sort_items ms index [] = record { active = []; failed = []; entries = [] }
  sort_items ms index (item ∷ items) =
      sort_item item (get_elem? ms index) (sort_items ms (suc index) items)

  unfoldable pub fail_created : Cause → List (Item Info) → List (String × StartupFailure Info Cause)
  unfolding startup_failure
  fail_created cause =
      map (λ (item : Item Info). (item.key, startup_failure item create_phase (thrown cause) none))

  -- retainedNodeIds.length === 0: every active item has its node id there.
  abbrev pub is_empty : {A : Type 0} → List A → Bool
  is_empty [] = true
  is_empty (_ ∷ _) = false

  -- The group is registered; a group without an active item is terminated and removed again.
  unfoldable pub settle_group :
      Group → Sorted Info Cause → Runtime Info Cause → CreatedChunk Info Cause × Runtime Info Cause
  unfolding remove_first
  settle_group group sorted s =
      let added = record s { created_groups = s.created_groups ++ group.handle ∷ [] } in
      if is_empty sorted.active
      then (
        record { active = sorted.active; failed = sorted.failed; retained = none },
        (let gone = terminate_monitor_group group.handle added in
            record gone { created_groups = remove_first group.handle gone.created_groups }),
      )
      else (
        record {
          active = sorted.active;
          failed = sorted.failed;
          retained = some (record { handle = group.handle; entries = sorted.entries });
        },
        added,
      )

  unfoldable pub settle_created :
      List (Item Info)
      → Exit Cause Group
      → Runtime Info Cause
      → CreatedChunk Info Cause × Runtime Info Cause
  unfolding settle_group sort_items fail_created
  settle_created chunk (failed cause) s =
      (record { active = []; failed = fail_created cause chunk; retained = none }, s)
  settle_created chunk (succeeded group) s =
      settle_group group (sort_items group.monitored_items 0 chunk) s

  unfoldable pub create_monitor_chunk :
      List (Item Info) → Runtime Info Cause → CreatedChunk Info Cause × Runtime Info Cause
  unfolding settle_created
  create_monitor_chunk chunk s =
      let answer = server.create s.calls chunk in
      settle_created chunk answer (ask (created chunk answer) s)

  unfoldable pub create_chunks :
      List (List (Item Info))
      → Runtime Info Cause
      → List (CreatedChunk Info Cause) × Runtime Info Cause
  unfolding create_monitor_chunk
  create_chunks [] s = ([], s)
  create_chunks (chunk ∷ chunks) s =
      let (first, s') = create_monitor_chunk chunk s in
      let (rest, s'') = create_chunks chunks s' in (first ∷ rest, s'')

  -- Array.from(groupCompatibleItems(items).values()).flatMap((group) => chunksOf(group, ...))
  unfoldable pub chunks_to_create : CreateOptions → List (Item Info) → List (List (Item Info))
  unfolding group_compatible_items chunks_of
  chunks_to_create create items =
      flat_map
        (λ (group : String × List (Item Info)).
          chunks_or_nil (chunks_of group.1 create.max_items_per_request))
        (group_compatible_items items)

  unfoldable pub create_monitor_chunks :
      CreateOptions
      → List (Item Info)
      → Runtime Info Cause
      → List (CreatedChunk Info Cause) × Runtime Info Cause
  unfolding create_chunks chunks_to_create
  create_monitor_chunks create items s = create_chunks (chunks_to_create create items) s

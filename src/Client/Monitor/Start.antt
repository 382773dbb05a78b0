-- ===== src/Client/Monitor/Start.antt =====
-- `monitor` of packages/client/src/internal/monitoring/runtime.ts from the validated options on, with
-- cleanupMonitor, makeStartupReport and the listeners of wireMonitorGroup.
use effect_opcua.Prelude.{
  ℕ, String, Option, none, some, List, [], ◌∷◌, ◌++◌, Bool, true, false, not, nat_eq, length,
  flat_map, map, if◌then◌else◌,
}
use effect_opcua.Prelude.Maps.{Map, set}
use effect_opcua.Client.Effect.{Exit, succeeded, failed}
use effect_opcua.Client.Monitor.{
  Item, Startup, strict, best_effort, Validation, CreateOptions, StartupFailure, Started,
  monitor_items_created, Server, Runtime, StartupReport, terminate_monitor_group,
}
use effect_opcua.Client.Monitor.Validate.{Validated, validate_startup_items}
use effect_opcua.Client.Monitor.Create.{Entry, Retained, CreatedChunk, create_monitor_chunks}

-- for (const [key, value] of pairs) map.set(key, value)
unfoldable pub set_all : {V : Type 0} → List (String × V) → Map V → Map V
set_all [] m = m
set_all ((key, value) ∷ pairs) m = set_all pairs (set key value m)

-- entries.flatMap((entry) => (entry ? [entry.nodeId] : []))
unfoldable pub node_ids : {Info : Type 0} → List (Option (Entry Info)) → List String
node_ids [] = []
node_ids (none ∷ entries) = node_ids entries
node_ids (some entry ∷ entries) = entry.node_id ∷ node_ids entries

-- The groups other than one.
unfoldable pub remove_group : ℕ → List ℕ → List ℕ
remove_group g [] = []
remove_group g (h ∷ hs) = if nat_eq h g then remove_group g hs else h ∷ remove_group g hs

abbrev pub option_list : {A : Type 0} → Option A → List A
option_list none = []
option_list (some a) = a ∷ []

abbrev pub handles : {Info : Type 0} → List (Retained Info) → List ℕ
handles = map (λ (r : Retained _). r.handle)

-- startup === "strict" && failed.size > 0
abbrev pub refuses : Startup → ℕ → Bool
refuses best_effort n = false
refuses strict n = not (nat_eq n 0)

-- What `monitor` gives back, with the teardowns that the finalizer will run.
pub record ActiveMonitor (Info Cause : Type 0) : Type 0 where
  pub startup : StartupReport Info Cause
  pub teardowns : List ℕ

module _ {Info Cause : Type 0} where
  unfoldable pub make_startup_report :
      ℕ → Map (Started Info) → Map (StartupFailure Info Cause) → StartupReport Info Cause
  make_startup_report requested active failures = record {
    ok = nat_eq (length failures) 0;
    requested = requested;
    active_count = length active;
    failed_count = length failures;
    active = active;
    failed = failures;
  }

  -- The first half of cleanupMonitor: every teardown takes the listeners of its group off.
  unfoldable pub run_teardowns : List ℕ → Runtime Info Cause → Runtime Info Cause
  unfolding remove_group
  run_teardowns [] s = s
  run_teardowns (g ∷ teardowns) s =
      run_teardowns teardowns (record s { listening = remove_group g s.listening })

  -- The second half: every group is marked before it is terminated.
  unfoldable pub terminate_groups : List ℕ → Runtime Info Cause → Runtime Info Cause
  terminate_groups [] s = s
  terminate_groups (g ∷ groups) s =
      terminate_groups groups
        (terminate_monitor_group g (record s { finalizing = g ∷ s.finalizing }))

  -- Both arrays are emptied by `splice(0)`; the queue is shut down at the end.
  unfoldable pub cleanup_monitor : List ℕ → Runtime Info Cause → Runtime Info Cause
  unfolding run_teardowns terminate_groups
  cleanup_monitor teardowns s =
      let quiet = run_teardowns teardowns s in
      let done = terminate_groups quiet.created_groups (record quiet { created_groups = [] }) in
      record done { queue_open = false }

  -- wireMonitorGroup: its result, the teardown, stands for the group.
  unfoldable pub wire_monitor_group : Retained Info → Runtime Info Cause → Runtime Info Cause
  unfolding node_ids
  wire_monitor_group retained s = record s {
    listening = s.listening ++ retained.handle ∷ [];
    events = s.events ++ monitor_items_created (node_ids retained.entries) ∷ [];
  }

  unfoldable pub wire_all : List (Retained Info) → Runtime Info Cause → Runtime Info Cause
  unfolding wire_monitor_group
  wire_all [] s = s
  wire_all (r ∷ rs) s = wire_all rs (wire_monitor_group r s)

  -- The loop over the created chunks.
  abbrev pub active_of : List (CreatedChunk Info Cause) → List (String × Started Info)
  active_of = flat_map (λ (c : CreatedChunk Info Cause). c.active)

  abbrev pub failed_of : List (CreatedChunk Info Cause) → List (String × StartupFailure Info Cause)
  failed_of = flat_map (λ (c : CreatedChunk Info Cause). c.failed)

  abbrev pub retained_of : List (CreatedChunk Info Cause) → List (Retained Info)
  retained_of = flat_map (λ (c : CreatedChunk Info Cause). option_list c.retained)

module _ {Info Cause : Type 0} (server : Server Info Cause) where
  -- From the report on.
  unfoldable pub finish_startup :
      Startup
      → StartupReport Info Cause
      → List (Retained Info)
      → Runtime Info Cause
      → Exit (StartupReport Info Cause) (ActiveMonitor Info Cause) × Runtime Info Cause
  unfolding cleanup_monitor wire_all
  finish_startup startup report retained s =
      if refuses startup report.failed_count then (failed report, cleanup_monitor [] s) else (
        succeeded (record { startup = report; teardowns = handles retained }),
        wire_all retained s,
      )

  -- From the creation of the queue on.
  unfoldable pub start_validated :
      ℕ
      → Startup
      → CreateOptions
      → Validated Info Cause
      → Runtime Info Cause
      → Exit (StartupReport Info Cause) (ActiveMonitor Info Cause) × Runtime Info Cause
  unfolding finish_startup make_startup_report set_all create_monitor_chunks
  start_validated requested startup create v s =
      let (chunks, s') =
        create_monitor_chunks server create v.active (record s { queue_open = true }) in
      let report =
        make_startup_report requested (set_all (active_of chunks) [])
          (set_all (failed_of chunks) (set_all v.failed [])) in
      finish_startup startup report (retained_of chunks) s'

  unfoldable pub monitor :
      Startup
      → Validation
      → CreateOptions
      → List (Item Info)
      → Runtime Info Cause
      → Exit (StartupReport Info Cause) (ActiveMonitor Info Cause) × Runtime Info Cause
  unfolding start_validated validate_startup_items make_startup_report set_all
  monitor startup validation create items s =
      let (v, s') = validate_startup_items server validation create items s in
      if refuses startup (length (set_all v.failed []))
      then (failed (make_startup_report (length items) [] (set_all v.failed [])), s')
      else start_validated (length items) startup create v s'

-- ===== src/Client/Monitor.antt =====
-- packages/client/src/internal/monitoring/runtime.ts: the items, the reports, and the state of one call
-- of `monitor`. `Info` stands for what an item carries to the server and back (its definition, the
-- requested options and the filter), `Cause` for an unknown cause of a failure.
pub mod Validate
pub mod Create
pub mod Start
pub mod Released
pub mod Leaks
pub mod Listen
pub mod Weights
pub mod Balanced
pub mod Report
pub mod Compatible
pub mod Buffer
pub mod Losses
mod Tests
use effect_opcua.Prelude.{ℕ, String, Option, List, [], ◌∷◌, ◌++◌, Bool, nat_eq, if◌then◌else◌}
use effect_opcua.Prelude.Maps.{Map}
use effect_opcua.Client.Effect.{Exit}
use effect_opcua.Client.Access.{AccessLevelFlag, AccessDenied}

-- EffectiveMonitorItem
pub record Item (Info : Type 0) : Type 0 where
  pub key : String
  pub node_id : String
  pub compatibility_key : String
  pub info : Info

pub data Startup : Type 0 where
  strict best_effort : Startup

pub data Validation : Type 0 where
  unchecked access_checked strictly_checked : Validation

pub record CreateOptions : Type 0 where
  pub max_items_per_request : ℕ
  pub max_concurrent_requests : ℕ

pub data Phase : Type 0 where
  validation_phase create_phase : Phase

-- `result` of a monitored item, where it is there.
pub record ItemResult : Type 0 where
  pub revised_sampling_interval : Option ℕ
  pub revised_queue_size : Option ℕ

-- The cause of a startup failure: what a call threw or gave back, an access level that is no number,
-- the error of the access check, or the result of the monitored item.
pub data FailureCause (Cause : Type 0) : Type 0 where
  thrown : Cause → FailureCause Cause
  unreadable : FailureCause Cause
  access_denied : AccessDenied → FailureCause Cause
  item_result : Option ItemResult → FailureCause Cause

pub record StartupFailure (Info Cause : Type 0) : Type 0 where
  pub key : String
  pub node_id : String
  pub info : Info
  pub phase : Phase
  pub cause : FailureCause Cause
  pub status_code : Option ℕ

unfoldable pub startup_failure :
    {Info Cause : Type 0}
    → Item Info
    → Phase
    → FailureCause Cause
    → Option ℕ
    → StartupFailure Info Cause
startup_failure item phase cause status = record {
  key = item.key;
  node_id = item.node_id;
  info = item.info;
  phase = phase;
  cause = cause;
  status_code = status;
}

pub record Started (Info : Type 0) : Type 0 where
  pub key : String
  pub node_id : String
  pub info : Info
  pub revised : Option ItemResult

-- A monitored item of a group that the server created; its status may be missing.
pub record MonitoredItem : Type 0 where
  pub status_code : Option ℕ
  pub result : Option ItemResult

-- A group of node-opcua: the number tells the object, and its items are in the order of the request.
pub record Group : Type 0 where
  pub handle : ℕ
  pub monitored_items : List MonitoredItem

-- A value that was read: its status, and the number in it.
pub record LevelValue : Type 0 where
  pub status_code : ℕ
  pub number : Option ℕ

-- What was asked of node-opcua, with its answer, in order.
pub data Call (Info Cause : Type 0) : Type 0 where
  created : List (Item Info) → Exit Cause Group → Call Info Cause
  terminated : ℕ → Call Info Cause
  levels_read : List (Item Info) → Exit Cause (List (Option LevelValue)) → Call Info Cause
  validated : Item Info → Option Cause → Call Info Cause

-- node-opcua and the session as one call sees them: every answer may hang on all calls before it.
pub record Server (Info Cause : Type 0) : Type 0 where
  pub is_good : ℕ → Bool
  pub bad : ℕ
  pub flags : AccessLevelFlag
  pub create : List (Call Info Cause) → List (Item Info) → Exit Cause Group
  pub read_levels :
      List (Call Info Cause) → List (Item Info) → Exit Cause (List (Option LevelValue))
  pub validate : List (Call Info Cause) → Item Info → Option Cause

pub data Event : Type 0 where
  monitor_items_created : List String → Event
  monitor_items_terminated : List String → Event
  client_buffer_dropped : String → Event
  internal_error : Event

-- createdGroups, finalizingMonitorGroups, the groups whose events are listened to, and what node-opcua
-- was asked. Groups stand for their handles.
pub record Runtime (Info Cause : Type 0) : Type 0 where
  pub calls : List (Call Info Cause)
  pub created_groups : List ℕ
  pub finalizing : List ℕ
  pub listening : List ℕ
  pub queue_open : Bool
  pub events : List Event

pub record StartupReport (Info Cause : Type 0) : Type 0 where
  pub ok : Bool
  pub requested : ℕ
  pub active_count : ℕ
  pub failed_count : ℕ
  pub active : Map (Started Info)
  pub failed : Map (StartupFailure Info Cause)

-- removeCreatedMonitorGroup: the first occurrence is spliced out.
unfoldable pub remove_first : ℕ → List ℕ → List ℕ
remove_first g [] = []
remove_first g (h ∷ hs) = if nat_eq h g then hs else h ∷ remove_first g hs

module _ {Info Cause : Type 0} where
  abbrev pub ask : Call Info Cause → Runtime Info Cause → Runtime Info Cause
  ask call s = record s { calls = s.calls ++ call ∷ [] }

  -- terminateMonitorGroup: a rejection is ignored.
  abbrev pub terminate_monitor_group : ℕ → Runtime Info Cause → Runtime Info Cause
  terminate_monitor_group g = ask (terminated g)

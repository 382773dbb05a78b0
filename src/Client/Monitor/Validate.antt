-- ===== src/Client/Monitor/Validate.antt =====
-- The validation of the items before any is created: validateStartupItems of
-- packages/client/src/internal/monitoring/runtime.ts, with the access check of variable/operations.ts.
use effect_opcua.Prelude.{
  ℕ, suc, ◌+◌, ◌*◌, String, Option, none, some, List, [], ◌∷◌, ◌++◌, get_elem?, if◌then◌else◌,
}
use effect_opcua.Client.Effect.{Exit, succeeded, failed}
use effect_opcua.Client.Batch.{chunks_of, chunks_or_nil}
use effect_opcua.Client.Access.{AccessDenied, read_capability, access_denied_error}
use effect_opcua.Client.Monitor.{
  Item, Validation, unchecked, access_checked, strictly_checked, CreateOptions, FailureCause,
  thrown, unreadable, access_denied, StartupFailure, startup_failure, validation_phase, LevelValue,
  levels_read, validated, Server, Runtime, ask,
}

-- active and failed; the pairs of the Map `failed` in the order in which they are set
pub record Validated (Info Cause : Type 0) : Type 0 where
  pub active : List (Item Info)
  pub failed : List (String × StartupFailure Info Cause)

module _ {Info Cause : Type 0} where
  abbrev pub none_validated : Validated Info Cause
  none_validated = record { active = []; failed = [] }

  abbrev pub cons_active : Item Info → Validated Info Cause → Validated Info Cause
  cons_active item v = record v { active = item ∷ v.active }

  abbrev pub cons_failed :
      Item Info → FailureCause Cause → Option ℕ → Validated Info Cause → Validated Info Cause
  unfolding startup_failure
  cons_failed item cause status v = record v {
    failed = (item.key, startup_failure item validation_phase cause status) ∷ v.failed;
  }

  abbrev pub append_validated : Validated Info Cause → Validated Info Cause → Validated Info Cause
  append_validated v w = record { active = v.active ++ w.active; failed = v.failed ++ w.failed }

module _ {Info Cause : Type 0} (server : Server Info Cause) where
  -- One answer of validateVariable, before the rest of the loop.
  unfoldable pub settle_strict :
      Item Info → Option Cause → Validated Info Cause → Validated Info Cause
  unfolding cons_failed
  settle_strict item none rest = cons_active item rest
  settle_strict item (some cause) rest = cons_failed item (thrown cause) none rest

  unfoldable pub validate_strict :
      List (Item Info) → Runtime Info Cause → Validated Info Cause × Runtime Info Cause
  unfolding settle_strict
  validate_strict [] s = (none_validated, s)
  validate_strict (item ∷ items) s =
      let answer = server.validate s.calls item in
      let (rest, s') = validate_strict items (ask (validated item answer) s) in
      (settle_strict item answer rest, s')

  -- The user's level counts only where its status is good and it is a number.
  user_level : Option LevelValue → Option ℕ
  user_level none = none
  user_level (some v) = if server.is_good v.status_code then v.number else none

  unfoldable pub check_denied :
      Item Info → Option AccessDenied → Validated Info Cause → Validated Info Cause
  unfolding cons_failed
  check_denied item none rest = cons_active item rest
  check_denied item (some error) rest = cons_failed item (access_denied error) none rest

  unfoldable pub check_level :
      Item Info → ℕ → Option ℕ → Validated Info Cause → Validated Info Cause
  unfolding check_denied access_denied_error
  check_level item level user rest =
      check_denied item (access_denied_error server.flags item.node_id read_capability level user)
        rest

  unfoldable pub check_number :
      Item Info
      → LevelValue
      → Option ℕ
      → Option LevelValue
      → Validated Info Cause
      → Validated Info Cause
  unfolding check_level user_level cons_failed
  check_number item v none user rest = cons_failed item unreadable (some v.status_code) rest
  check_number item v (some level) user rest =
      if server.is_good v.status_code
      then check_level item level (user_level user) rest
      else cons_failed item unreadable (some v.status_code) rest

  unfoldable pub check_access :
      Item Info
      → Option LevelValue
      → Option LevelValue
      → Validated Info Cause
      → Validated Info Cause
  unfolding check_number cons_failed
  check_access item none user rest = cons_failed item unreadable none rest
  check_access item (some v) user rest = check_number item v v.number user rest

  -- values[index] of an array that may be too short
  abbrev value_at : List (Option LevelValue) → ℕ → Option LevelValue
  value_at values i = elim (get_elem? values i) [ none ↦ none | some v ↦ v ]

  -- The loop of validateAccessChunk from an index on.
  unfoldable pub check_levels :
      List (Option LevelValue) → ℕ → List (Item Info) → Validated Info Cause
  unfolding check_access
  check_levels values index [] = none_validated
  check_levels values index (item ∷ items) =
      check_access item (value_at values (index * 2)) (value_at values (index * 2 + 1))
        (check_levels values (suc index) items)

  unfoldable pub fail_all : Cause → List (Item Info) → Validated Info Cause
  unfolding cons_failed
  fail_all cause [] = none_validated
  fail_all cause (item ∷ items) = cons_failed item (thrown cause) none (fail_all cause items)

  unfoldable pub settle_chunk :
      List (Item Info) → Exit Cause (List (Option LevelValue)) → Validated Info Cause
  unfolding check_levels fail_all
  settle_chunk chunk (failed cause) = fail_all cause chunk
  settle_chunk chunk (succeeded values) = check_levels values 0 chunk

  unfoldable pub validate_access_chunk :
      List (Item Info) → Runtime Info Cause → Validated Info Cause × Runtime Info Cause
  unfolding settle_chunk
  validate_access_chunk chunk s =
      let answer = server.read_levels s.calls chunk in
      (settle_chunk chunk answer, ask (levels_read chunk answer) s)

  unfoldable pub validate_chunks :
      List (List (Item Info)) → Runtime Info Cause → Validated Info Cause × Runtime Info Cause
  unfolding validate_access_chunk
  validate_chunks [] s = (none_validated, s)
  validate_chunks (chunk ∷ chunks) s =
      let (first, s') = validate_access_chunk chunk s in
      let (rest, s'') = validate_chunks chunks s' in (append_validated first rest, s'')

  unfoldable pub validate_access :
      CreateOptions
      → List (Item Info)
      → Runtime Info Cause
      → Validated Info Cause × Runtime Info Cause
  unfolding validate_chunks chunks_of
  validate_access create items s =
      validate_chunks (chunks_or_nil (chunks_of items create.max_items_per_request)) s

  unfoldable pub validate_startup_items :
      Validation
      → CreateOptions
      → List (Item Info)
      → Runtime Info Cause
      → Validated Info Cause × Runtime Info Cause
  unfolding validate_access validate_strict
  validate_startup_items unchecked create items s = (record { active = items; failed = [] }, s)
  validate_startup_items access_checked create items s = validate_access create items s
  validate_startup_items strictly_checked create items s = validate_strict items s

-- ===== src/Client/Monitor/Report.antt =====
-- packages/client/src/internal/monitoring/runtime.ts: the startup report accounts for every item.
use mathlib.Core.List.{append-nil, append_assoc}
use effect_opcua.Prelude.{
  ℕ, ◌+◌, ◌≤◌, ◌<◌, String, List, [], ◌∷◌, ◌++◌, true, false, nat_eq, Bool-cases, length, ◌≡◌, refl,
  sym, ap, ◌∙◌, inl, inr, arith, if◌then◌else◌, ◌==◌, eq_iff,
}
use effect_opcua.Prelude.Maps.{Map, set}
use effect_opcua.Client.Effect.{Exit, succeeded, failed}
use effect_opcua.Client.Monitor.{
  Item, Server, Runtime, CreateOptions, Startup, strict, best_effort, Validation, StartupReport,
  StartupFailure, Started,
}
use effect_opcua.Client.Monitor.Validate.{Validated, validate_startup_items}
use effect_opcua.Client.Monitor.Create.{Retained, create_monitor_chunks}
use effect_opcua.Client.Monitor.Start.{
  set_all, active_of, failed_of, retained_of, refuses, make_startup_report, finish_startup,
  start_validated, ActiveMonitor, monitor,
}
use effect_opcua.Client.Monitor.Weights.{weigh_keys, weigh_keys-append}
use effect_opcua.Client.Monitor.Balanced.{weigh_items}
use effect_opcua.Client.Monitor.Balanced.Validation.{weigh_validated, weigh-validate_startup_items}
use effect_opcua.Client.Monitor.Balanced.Creation.{weigh-create_monitor_chunks}

-- One for the key itself, and nothing for another key.
abbrev pub occurs : String → String → ℕ
occurs k j = if j == k then 1 else 0

-- No key stands at two items, as with the keys of a JavaScript object.
abbrev pub HasDistinctKeys : {Info : Type 0} → List (Item Info) → Type 0
HasDistinctKeys items = (k : String) → weigh_items (occurs k) items ≤ 1

module _ {V : Type 0} where
  set-of_fresh :
      (k : String) (v : V) (m : Map V) → weigh_keys (occurs k) m ≡ 0 → set k v m ≡ m ++ (k, v) ∷ []
  unfolding set
  set-of_fresh k v [] fresh = refl
  set-of_fresh k v ((j, w) ∷ m) fresh = elim (Bool-cases (j == k)) [
    | inl same ↦ absurd (ground arith)
    | inr other ↦ rw other (ap (λ n. (j, w) ∷ n) (set-of_fresh k v m (ground arith)))
  ]

  -- With distinct keys a Map is filled without overwriting.
  set_all-of_distinct :
      (pairs : List (String × V)) (m : Map V)
      → ((k : String) → weigh_keys (occurs k) pairs + weigh_keys (occurs k) m ≤ 1)
      → set_all pairs m ≡ m ++ pairs
  unfolding set_all
  set_all-of_distinct [] m distinct = sym (append-nil m)
  set_all-of_distinct ((k, v) ∷ pairs) m distinct =
      ap (set_all pairs) (set-of_fresh k v m (ground (arith, distinct k, eq_iff k k)))
      ∙ set_all-of_distinct pairs (m ++ (k, v) ∷ [])
          (λ j. omega (arith, distinct j, weigh_keys-append (occurs j) m ((k, v) ∷ [])))
      ∙ append_assoc m ((k, v) ∷ []) pairs

  length-weigh_keys : (m : Map V) → weigh_keys (λ _. 1) m ≡ length m
  length-weigh_keys [] = refl
  length-weigh_keys (p ∷ m) = omega (arith, length-weigh_keys m)

length-weigh_items :
    {Info : Type 0} (items : List (Item Info)) → weigh_items (λ _. 1) items ≡ length items
length-weigh_items [] = refl
length-weigh_items (item ∷ items) = omega (arith, length-weigh_items items)

module _ {Info Cause : Type 0} where
  -- The report of a successful call: every key stands as often in the two maps together as among the
  -- items, so an item is either active or failed; a strict call has no failure.
  abbrev pub IsComplete : Startup → List (Item Info) → StartupReport Info Cause → Type 0
  IsComplete startup items report =
      ((k : String)
        → weigh_keys (occurs k) report.active + weigh_keys (occurs k) report.failed
          ≡ weigh_items (occurs k) items)
      × (report.active_count + report.failed_count ≡ length items)
      × (report.requested ≡ length items)
      × (report.ok ≡ nat_eq report.failed_count 0)
      × (startup ≡ strict → report.failed_count ≡ 0)

  -- The report of a call that fails: it is strict, and names a failure.
  abbrev pub IsRefusal : Startup → List (Item Info) → StartupReport Info Cause → Type 0
  IsRefusal startup items report =
      (startup ≡ strict)
      × (0 < report.failed_count)
      × (report.failed_count ≡ length report.failed)
      × (report.requested ≡ length items)
      × (report.ok ≡ false)

  abbrev pub Reports :
      Startup
      → List (Item Info)
      → Exit (StartupReport Info Cause) (ActiveMonitor Info Cause)
      → Type 0
  Reports startup items (succeeded m) = IsComplete startup items m.startup
  Reports startup items (failed report) = IsRefusal startup items report

strict_of_refuses :
    (startup : Startup) (n : ℕ) → refuses startup n ≡ true → (startup ≡ strict) × (0 < n)
strict_of_refuses strict n h = (refl, ground arith)
strict_of_refuses best_effort n h = absurd (ground arith)

none_of_accepts : (startup : Startup) (n : ℕ) → refuses startup n ≡ false → startup ≡ strict → n ≡ 0
none_of_accepts strict n h _ = ground arith
none_of_accepts best_effort n h e = absurd (ground arith)

module _ {Info Cause : Type 0} (server : Server Info Cause) (items : List (Item Info)) where
  -- The two maps of a report, from the pairs that fill them.
  IsPartition : Map (Started Info) → Map (StartupFailure Info Cause) → Type 0
  IsPartition active failures =
      (f : String → ℕ) → weigh_keys f active + weigh_keys f failures ≡ weigh_items f items

  Reports-refused :
      (startup : Startup) (active : Map (Started Info)) (failures : Map (StartupFailure Info Cause))
      → refuses startup (length failures) ≡ true
      → IsRefusal startup items (make_startup_report (length items) active failures)
  unfolding make_startup_report
  Reports-refused startup active failures e =
      let (is_strict, some_failed) = strict_of_refuses startup (length failures) e in
      (is_strict, some_failed, refl, refl, ground arith)

  Reports-finish_startup :
      (startup : Startup) (active : Map (Started Info)) (failures : Map (StartupFailure Info Cause))
      (retained : List (Retained Info)) (s : Runtime Info Cause)
      → IsPartition active failures
      → Reports startup items
          (finish_startup server startup
            (make_startup_report (length items) active failures)
            retained
            s).0
  unfolding finish_startup make_startup_report IsPartition
  Reports-finish_startup startup active failures retained s all =
      elim (Bool-cases (refuses startup (length failures))) [
        | inl e ↦ rw e (Reports-refused startup active failures e)
        | inr e ↦ rw e (
          λ k. all (occurs k),
          omega (
            arith,
            all (λ _. 1),
            length-weigh_keys active,
            length-weigh_keys failures,
            length-weigh_items items,
          ),
          refl,
          refl,
          none_of_accepts startup (length failures) e,
        )
      ]

  Reports-start_validated :
      (startup : Startup) (create : CreateOptions) (v : Validated Info Cause)
      (s : Runtime Info Cause)
      → 0 < create.max_items_per_request
      → HasDistinctKeys items
      → ((f : String → ℕ) → weigh_validated f v ≡ weigh_items f items)
      → Reports startup items (start_validated server (length items) startup create v s).0
  unfolding start_validated IsPartition
  Reports-start_validated startup create v s pos distinct all =
      let start = record s { queue_open = true } in
      let chunks = (create_monitor_chunks server create v.active start).0 in
      let made : (f : String → ℕ)
          → weigh_keys f (active_of chunks) + weigh_keys f (failed_of chunks)
            ≡ weigh_items f v.active =
        λ f. weigh-create_monitor_chunks server f create v.active start pos in
      let old = set_all-of_distinct v.failed [] (λ k. omega (arith, all (occurs k), distinct k)) in
      let active =
        set_all-of_distinct (active_of chunks) []
          (λ k. omega (arith, all (occurs k), distinct k, made (occurs k))) in
      let failures =
        set_all-of_distinct (failed_of chunks) v.failed
          (λ k. omega (arith, all (occurs k), distinct k, made (occurs k))) in
      rw (old, active, failures)
        (Reports-finish_startup startup (active_of chunks) (v.failed ++ failed_of chunks)
          (retained_of chunks) (create_monitor_chunks server create v.active start).1
          (λ f. omega (arith, all f, made f, weigh_keys-append f v.failed (failed_of chunks))))

  -- When the items have distinct keys and a request may hold at least one item: a call of `monitor` that
  -- succeeds reports every item exactly once, as active or as failed, its two counts add up to the
  -- number of items, `ok` says whether nothing failed, and with the startup mode "strict" nothing
  -- failed; a call that fails has that mode and reports at least one failure. This holds for all
  -- answers of the server, for a missing monitored item or access level too.
  pub monitor-Reports :
      (startup : Startup) (validation : Validation) (create : CreateOptions)
      (s : Runtime Info Cause)
      → 0 < create.max_items_per_request
      → HasDistinctKeys items
      → Reports startup items (monitor server startup validation create items s).0
  unfolding monitor
  monitor-Reports startup validation create s pos distinct =
      let checked = validate_startup_items server validation create items s in
      elim (Bool-cases (refuses startup (length (set_all checked.0.failed [])))) [
        | inl e ↦ rw e (Reports-refused startup [] (set_all checked.0.failed []) e)
        | inr e ↦ rw e (
            Reports-start_validated startup create checked.0 checked.1 pos distinct
              (λ f. weigh-validate_startup_items server f validation create items s pos))
      ]

-- ===== src/Client/Monitor/Listen.antt =====
-- packages/client/src/internal/monitoring/runtime.ts: the listeners that wireMonitorGroup puts on a
-- group, and the steps of a monitor between its start and the end of its clean-up.
pub mod Failed
pub mod Tests
use effect_opcua.Prelude.{
  ℕ, String, Option, none, some, List, [], ◌∷◌, ◌++◌, Bool, any, nat_eq, get_elem?, Memᴰ, ◌≡◌,
  if◌then◌else◌,
}
use effect_opcua.Client.Monitor.{Event, monitor_items_terminated, internal_error}
use effect_opcua.Client.Monitor.Create.{Entry, Retained}
use effect_opcua.Client.Monitor.Start.{node_ids, remove_group}
use effect_opcua.Client.Monitor.Buffer.{
  BufferPolicy, Notification, QueueOps, offer_monitor_notification,
}

-- What OpcuaError.monitorRuntimeError is given, less the subscription.
pub record RuntimeError (Cause : Type 0) : Type 0 where
  pub node_ids : List String
  pub cause : Cause

-- The events of a ClientMonitoredItemGroup.
pub data Signal (Value Cause : Type 0) : Type 0 where
  changed : ℕ → Value → Signal Value Cause
  err terminated : Cause → Signal Value Cause

-- The queue, the published events, the groups with listeners, and finalizingMonitorGroups.
pub record Live (Q : Type 0) : Type 0 where
  pub queue : Q
  pub events : List Event
  pub listening : List ℕ
  pub finalizing : List ℕ

-- Effect's queue, with Queue.fail.
pub record FailingQueue (Q A Error : Type 0) : Type 0 where
  pub ops : QueueOps Q A
  pub fail_queue : Q → Error → Q

-- What is documented of a queue's failure: it is the first one, and offers and takes leave it.
pub record KeepsFailure {Q A Error : Type 0} (q : FailingQueue Q A Error)
    (failure : Q → Option Error) : Type 0 where
  pub first : (s : Q) (e : Error) → failure s ≡ none → failure (q.fail_queue s e) ≡ some e
  pub later : (s : Q) (e f : Error) → failure s ≡ some f → failure (q.fail_queue s e) ≡ some f
  pub offered : (s : Q) (a : A) → failure (q.ops.offer_unsafe s a).1 ≡ failure s

module _ {Info Value Cause Q : Type 0}
    (q : FailingQueue Q (Notification Info Value) (RuntimeError Cause))
    (policy : BufferPolicy) where
  abbrev is_finalizing : Retained Info → Live Q → Bool
  is_finalizing group s = any (λ h. nat_eq h group.handle) s.finalizing

  unfoldable pub fail_runtime : Retained Info → Cause → Live Q → Live Q
  unfolding node_ids
  fail_runtime group cause s = if is_finalizing group s then s else record s {
    events = s.events ++ internal_error ∷ [];
    queue = q.fail_queue s.queue (record { node_ids = node_ids group.entries; cause = cause });
  }

  abbrev with_offer : Live Q → Q × List Event → Live Q
  with_offer s (queue, events) = record s { queue = queue; events = events }

  -- entries[index], where a missing entry and one of an item that is not active are undefined
  abbrev on_changed_entry : Option (Option (Entry Info)) → Value → Live Q → Live Q
  on_changed_entry none data_value s = s
  on_changed_entry (some none) data_value s = s
  on_changed_entry (some (some entry)) data_value s = with_offer s (
      offer_monitor_notification q.ops policy (record { entry = entry; data_value = data_value })
        (s.queue, s.events))

  unfoldable pub on_changed : Retained Info → ℕ → Value → Live Q → Live Q
  unfolding offer_monitor_notification
  on_changed group index data_value s =
      on_changed_entry (get_elem? group.entries index) data_value s

  unfoldable pub on_error : Retained Info → Cause → Live Q → Live Q
  unfolding fail_runtime
  on_error group message s = fail_runtime group message s

  unfoldable pub on_terminated_group : Retained Info → Cause → Live Q → Live Q
  unfolding fail_runtime node_ids
  on_terminated_group group cause s =
      if is_finalizing group s
      then s
      else fail_runtime group cause
          (record s { events = s.events ++ monitor_items_terminated (node_ids group.entries) ∷ [] })

  -- The listener of the event.
  unfoldable pub deliver : Retained Info → Signal Value Cause → Live Q → Live Q
  unfolding on_changed on_error on_terminated_group
  deliver group (changed index data_value) s = on_changed group index data_value s
  deliver group (err cause) s = on_error group cause s
  deliver group (terminated cause) s = on_terminated_group group cause s

  -- The cause of an event that ends the monitoring of a group.
  abbrev pub cause_of : Signal Value Cause → Option Cause
  cause_of (changed _ _) = none
  cause_of (err cause) = some cause
  cause_of (terminated cause) = some cause

  -- One step, with the error that reaches a group which is not being finalized. A taken notification
  -- leaves a queue with the same failure; the clean-up takes listeners off and marks groups.
  pub data Step (failure : Q → Option (RuntimeError Cause)) (s t : Live Q)
      : Option (RuntimeError Cause) → Type 0 where
    value :
        (group : Retained Info) (index : ℕ) (data_value : Value)
        → Memᴰ group.handle s.listening
        → t ≡ deliver group (changed index data_value) s
        → Step failure s t none
    ends :
        (group : Retained Info) (signal : Signal Value Cause) (cause : Cause)
        → Memᴰ group.handle s.listening
        → cause_of signal ≡ some cause
        → ¬ Memᴰ group.handle s.finalizing
        → t ≡ deliver group signal s
        → Step failure s t (some (record { node_ids = node_ids group.entries; cause = cause }))
    ignored :
        (group : Retained Info) (signal : Signal Value Cause) (cause : Cause)
        → Memᴰ group.handle s.listening
        → cause_of signal ≡ some cause
        → Memᴰ group.handle s.finalizing
        → t ≡ deliver group signal s
        → Step failure s t none
    taken :
        (rest : Q)
        → failure rest ≡ failure s.queue
        → t ≡ record s { queue = rest }
        → Step failure s t none
    torn_down :
        (handle : ℕ)
        → t ≡ record s { listening = remove_group handle s.listening }
        → Step failure s t none
    finalized :
        (handle : ℕ) → t ≡ record s { finalizing = handle ∷ s.finalizing } → Step failure s t none

  abbrev pub option_list : Option (RuntimeError Cause) → List (RuntimeError Cause)
  option_list none = []
  option_list (some e) = e ∷ []

  -- The states that are reached, with all errors on the way, the first one first.
  pub data Reach (failure : Q → Option (RuntimeError Cause)) (s : Live Q)
      : List (RuntimeError Cause) → Live Q → Type 0 where
    here : Reach failure s [] s
    next :
        {errors : List (RuntimeError Cause)} {t : Live Q} (errors' : List (RuntimeError Cause))
        (u : Live Q) (label : Option (RuntimeError Cause))
        → Reach failure s errors t
        → Step failure t u label
        → errors' ≡ errors ++ option_list label
        → Reach failure s errors' u

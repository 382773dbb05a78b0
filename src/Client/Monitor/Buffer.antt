-- ===== src/Client/Monitor/Buffer.antt =====
-- packages/client/src/internal/monitoring/runtime.ts: offerMonitorNotification, and the queue of
-- makeMonitorQueue, which is Effect's. BufferPolicy is the one of packages/client/src/OpcuaSubscription.ts.
use effect_opcua.Prelude.{
  ℕ, suc, ◌≤◌, ◌<◌, List, [], ◌∷◌, ◌++◌, Bool, true, false, not, ◌||◌, leb, drop, length, ◌≡◌,
  if◌then◌else◌,
}
use effect_opcua.Client.Monitor.{Event, client_buffer_dropped}
use effect_opcua.Client.Monitor.Create.{Entry}

pub data BufferPolicy : Type 0 where
  sliding dropping : ℕ → BufferPolicy

-- BufferPolicy.latest
abbrev pub latest : BufferPolicy
latest = sliding 1

abbrev pub capacity : BufferPolicy → ℕ
capacity (sliding n) = n
capacity (dropping n) = n

-- RawMonitorNotification; `Value` stands for a DataValue.
pub record Notification (Info Value : Type 0) : Type 0 where
  pub entry : Entry Info
  pub data_value : Value

-- Queue.sizeUnsafe and Queue.offerUnsafe; an offer says whether it was accepted.
pub record QueueOps (Q A : Type 0) : Type 0 where
  pub size_unsafe : Q → ℕ
  pub offer_unsafe : Q → A → Bool × Q

-- What is documented of an open queue: an offer below the capacity is appended; at the capacity a
-- sliding queue loses its oldest element and a dropping queue refuses the new one.
pub record IsBounded {Q A : Type 0} (policy : BufferPolicy) (ops : QueueOps Q A)
    (contents : Q → List A) : Type 0 where
  pub size : (q : Q) → ops.size_unsafe q ≡ length (contents q)
  pub appends :
      (q : Q) (a : A)
      → length (contents q) < capacity policy
      → ((ops.offer_unsafe q a).0 ≡ true)
        × (contents (ops.offer_unsafe q a).1 ≡ contents q ++ a ∷ [])
  pub slides :
      (q : Q) (a : A) (n : ℕ)
      → policy ≡ sliding n
      → n ≤ length (contents q)
      → ((ops.offer_unsafe q a).0 ≡ true)
        × (contents (ops.offer_unsafe q a).1 ≡ drop 1 (contents q ++ a ∷ []))
  pub refuses :
      (q : Q) (a : A) (n : ℕ)
      → policy ≡ dropping n
      → n ≤ length (contents q)
      → ((ops.offer_unsafe q a).0 ≡ false) × (contents (ops.offer_unsafe q a).1 ≡ contents q)

module _ {Info Value Q : Type 0} (ops : QueueOps Q (Notification Info Value)) where
  -- policy._tag === "Sliding" && Queue.sizeUnsafe(queue) >= policy.capacity
  abbrev pub will_drop : BufferPolicy → Q → Bool
  will_drop (sliding n) q = leb n (ops.size_unsafe q)
  will_drop (dropping n) q = false

  unfoldable pub offer_monitor_notification :
      BufferPolicy → Notification Info Value → Q × List Event → Q × List Event
  offer_monitor_notification policy notification (q, events) =
      let drops = will_drop policy q in
      let (offered, q') = ops.offer_unsafe q notification in
      if drops || not offered
      then (q', events ++ client_buffer_dropped notification.entry.node_id ∷ [])
      else (q', events)

  -- The notifications of a run, one after the other.
  unfoldable pub offer_all :
      BufferPolicy → List (Notification Info Value) → Q × List Event → Q × List Event
  unfolding offer_monitor_notification
  offer_all policy [] s = s
  offer_all policy (n ∷ ns) s = offer_all policy ns (offer_monitor_notification policy n s)

-- The number of ClientBufferDropped events.
unfoldable pub dropped_count : List Event → ℕ
dropped_count [] = 0
dropped_count (client_buffer_dropped _ ∷ events) = suc (dropped_count events)
dropped_count (_ ∷ events) = dropped_count events

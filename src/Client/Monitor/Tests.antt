-- ===== src/Client/Monitor/Tests.antt =====
-- The theorems on monitoring, for two items of which the server refuses the second.
use effect_opcua.Prelude.{
  ℕ, ◌+◌, ◌≤◌, String, Option, none, some, List, [], ◌∷◌, ◌++◌, true, false, nat_eq, ltb, drop,
  length, ◌≡◌, refl, arith, if◌then◌else◌, ◌==◌, eq_iff, map, All,
}
use effect_opcua.Client.Effect.{succeeded}
use effect_opcua.Client.Monitor.{
  Item, Server, Runtime, MonitoredItem, LevelValue, CreateOptions, strict, best_effort,
  access_checked,
}
use effect_opcua.Client.Monitor.Start.{monitor}
use effect_opcua.Client.Monitor.Create.{chunks_to_create}
use effect_opcua.Client.Monitor.Compatible.{IsUniform, chunks_to_create-IsUniform}
use effect_opcua.Client.Monitor.Leaks.{LeavesNothing, monitor-LeavesNothing}
use effect_opcua.Client.Monitor.Report.{Reports, HasDistinctKeys, monitor-Reports}
use effect_opcua.Client.Monitor.Buffer.{
  sliding, Notification, QueueOps, IsBounded, offer_all, dropped_count,
}
use effect_opcua.Client.Monitor.Losses.{offer_all-IsBuffered}

abbrev status_of : Item ℕ → MonitoredItem
status_of item = record { status_code = some item.info; result = none }

abbrev readable : List (Item ℕ) → List (Option LevelValue)
readable [] = []
readable (item ∷ items) =
    some (record { status_code = 0; number = some 1 })
    ∷ some (record { status_code = 0; number = some 1 })
    ∷ readable items

-- The status of an item is the number that it carries; 0 is good. A group is named by the time.
abbrev test_server : Server ℕ String
test_server = record {
  is_good = λ status. nat_eq status 0;
  bad = 1;
  flags = record { current_read = 1; current_write = 2 };
  create = λ calls items.
      succeeded (record { handle = length calls; monitored_items = map status_of items });
  read_levels = λ calls items. succeeded (readable items);
  validate = λ calls item. none;
}

abbrev two_items : List (Item ℕ)
two_items =
    (record { key = "a"; node_id = "ns=1;s=a"; compatibility_key = "500"; info = 0 })
    ∷ (record { key = "b"; node_id = "ns=1;s=b"; compatibility_key = "1000"; info = 7 })
    ∷ []

abbrev fresh : Runtime ℕ String
fresh = record {
  calls = [];
  created_groups = [];
  finalizing = [];
  listening = [];
  queue_open = false;
  events = [];
}

abbrev one_each : CreateOptions
one_each = record { max_items_per_request = 1; max_concurrent_requests = 1 }

monitor-LeavesNothing_example :
    LeavesNothing (monitor test_server strict access_checked one_each two_items fresh)
monitor-LeavesNothing_example =
    monitor-LeavesNothing test_server strict access_checked one_each two_items fresh refl refl

two_items-HasDistinctKeys : HasDistinctKeys two_items
two_items-HasDistinctKeys k =
    let apart : "a" == "b" ≡ false = refl in
    ground (arith, eq_iff "a" k, eq_iff k "b", eq_iff "b" k, eq_iff "a" "b")

monitor-Reports_example :
    Reports best_effort two_items
      (monitor test_server best_effort access_checked one_each two_items fresh).0
monitor-Reports_example =
    monitor-Reports test_server two_items best_effort access_checked one_each fresh (omega arith)
      two_items-HasDistinctKeys

-- A queue of two elements that slides.
abbrev list_queue : QueueOps (List (Notification ℕ ℕ)) (Notification ℕ ℕ)
list_queue = record {
  size_unsafe = λ q. length q;
  offer_unsafe =
      λ q a. if ltb (length q) 2 then (true, q ++ a ∷ []) else (true, drop 1 (q ++ a ∷ []));
}

list_queue-IsBounded : IsBounded (sliding 2) list_queue (λ q. q)
list_queue-IsBounded = record {
  size = λ q. refl;
  appends = λ q a below. (let e : ltb (length q) 2 ≡ true = ground arith in rw e (refl, refl));
  slides =
      λ q a n e full. (let f : ltb (length q) 2 ≡ false = ground (arith, e) in rw f (refl, refl));
  refuses = λ q a n e full. cc;
}

abbrev note : ℕ → Notification ℕ ℕ
note v = record { entry = record { key = "a"; node_id = "ns=1;s=a"; info = 0 }; data_value = v }

abbrev three_notes : List (Notification ℕ ℕ)
three_notes = note 1 ∷ note 2 ∷ note 3 ∷ []

offer_all-IsBuffered_example :
    (let (q, events) = offer_all list_queue (sliding 2) three_notes ([], []) in
      (q ≡ note 2 ∷ note 3 ∷ []) × (length q ≤ 2) × (dropped_count events + length q ≡ 3))
unfolding dropped_count
offer_all-IsBuffered_example =
    offer_all-IsBuffered list_queue (λ q. q) (sliding 2) list_queue-IsBounded three_notes [] [] refl

chunks_to_create-IsUniform_example :
    All (IsUniform 1) (chunks_to_create test_server one_each two_items)
chunks_to_create-IsUniform_example =
    chunks_to_create-IsUniform test_server one_each two_items (omega arith)
